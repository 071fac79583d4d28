-- ===== src/Node/Marks.antt =====
-- What a start-up does, without the tasks that the crates spawn themselves: the node's own tasks by
-- their kinds, and the start of the network.
use ghost_blockchain.Base.{
  ◌≡◌, refl, sym, ap, ◌∙◌, List, [], ◌∷◌, ◌++◌, ◌⊎◌, inl, inr, Option, none, some,
}
use mathlib.Core.List.{append-nil, append_assoc}
use Prim.Native.String.{String}
use ghost_blockchain.Node.Startup.{
  Kind, Outcome, ok, err, panicked, Happening, spawned, spawned_inside, network_started, Inside,
  inside, Startup, ◌>>=◌, then_do, pure, try, expect, spawning, happens,
}

pub data Mark : Type 0 where
  task : Kind → Mark
  start : Mark

abbrev pub marks : {F : Type 0} → List (Happening F) → List Mark
marks [] = []
marks (spawned kind future ∷ log) = task kind ∷ marks log
marks (spawned_inside kind future ∷ log) = marks log
marks (network_started ∷ log) = start ∷ marks log

marks-append : {F : Type 0} (a b : List (Happening F)) → marks (a ++ b) ≡ marks a ++ marks b
marks-append [] b = refl
marks-append (spawned kind future ∷ a) b = ap (◌∷◌ (task kind)) (marks-append a b)
marks-append (spawned_inside kind future ∷ a) b = marks-append a b
marks-append (network_started ∷ a) b = ap (◌∷◌ start) (marks-append a b)

marks-inside : {F : Type 0} (ts : Inside F) → marks (inside ts) ≡ []
marks-inside [] = refl
marks-inside ((kind, future) ∷ ts) = marks-inside ts

-- `p` is a beginning of `whole`.
abbrev pub IsPrefix : List Mark → List Mark → Type 0
IsPrefix p whole = (rest : List Mark) × (p ++ rest ≡ whole)

-- It ended well, with a value.
abbrev pub Ends : {E A : Type 0} → Outcome E A → Type 0
Ends {E} {A} o = (a : A) × (o ≡ ok a)

nothing : {F : Type 0} (log : List (Happening F)) → marks log ≡ marks log ++ []
nothing log = sym (append-nil (marks log))

-- The part of `whole` that a run leaves which does not end well.
abbrev pub LeavesPart : {F : Type 0} → (log log' : List (Happening F)) → List Mark → Type 0
LeavesPart log log' whole = (p : List Mark) × IsPrefix p whole × (marks log' ≡ marks log ++ p)

early :
    {F : Type 0} (log log' : List (Happening F)) (a b : List Mark)
    → LeavesPart log log' a
    → LeavesPart log log' (a ++ b)
early log log' a b (p, (rest, whole), left) =
    (p, (rest ++ b, sym (append_assoc p rest b) ∙ ap (λ (m : List Mark). m ++ b) whole), left)

later :
    {F : Type 0} (log log' log'' : List (Happening F)) (a b : List Mark)
    → marks log' ≡ marks log ++ a
    → LeavesPart log' log'' b
    → LeavesPart log log'' (a ++ b)
later log log' log'' a b first (p, (rest, whole), second) = (
  a ++ p,
  (rest, append_assoc a p rest ∙ ap (λ (m : List Mark). a ++ m) whole),
  second ∙ ap (λ (m : List Mark). m ++ p) first ∙ append_assoc (marks log) a p,
)

module _ {E F : Type 0} where
  -- From a log, an outcome leaves all of `whole` if it ended well, and else a beginning of it.
  abbrev pub Leaves :
      {A : Type 0} → List (Happening F) → Outcome E A × List (Happening F) → List Mark → Type 0
  Leaves log (ok a, log') whole = marks log' ≡ marks log ++ whole
  Leaves log (err e, log') whole = LeavesPart log log' whole
  Leaves log (panicked why, log') whole = LeavesPart log log' whole

  -- From an empty log.
  pub Leaves-cases :
      {A : Type 0} (r : Outcome E A × List (Happening F)) (whole : List Mark)
      → Leaves [] r whole
      → (Ends r.0 × (marks r.1 ≡ whole)) ⊎ ((¬ Ends r.0) × IsPrefix (marks r.1) whole)
  Leaves-cases (ok a, log) whole h = inl ((a, refl), h)
  Leaves-cases (err e, log) whole (p, (rest, all), left) =
      inr (λ w. cc w.1, (rest, ap (λ m. m ++ rest) left ∙ all))
  Leaves-cases (panicked why, log) whole (p, (rest, all), left) =
      inr (λ w. cc w.1, (rest, ap (λ m. m ++ rest) left ∙ all))

  pub record Does {A : Type 0} (m : Startup E F A) (whole : List Mark) : Type 0 where
    pub leaves : (log : List (Happening F)) → Leaves log (m log) whole

  pub try-Does : {A : Type 0} (r : E ⊎ A) → Does (try r) []
  unfolding try
  try-Does (inl e) = record { leaves = λ log. ([], ([], refl), nothing log) }
  try-Does (inr a) = record { leaves = λ log. nothing log }

  pub expect-Does : {A : Type 0} (r : E ⊎ Option A) (why : String) → Does (expect r why) []
  unfolding expect
  expect-Does (inl e) why = record { leaves = λ log. ([], ([], refl), nothing log) }
  expect-Does (inr none) why = record { leaves = λ log. ([], ([], refl), nothing log) }
  expect-Does (inr (some a)) why = record { leaves = λ log. nothing log }

  after :
      {B : Type 0} (log log' : List (Happening F)) (a b : List Mark)
      (r : Outcome E B × List (Happening F))
      → marks log' ≡ marks log ++ a
      → Leaves log' r b
      → Leaves log r (a ++ b)
  after log log' a b (ok x, log'') first second =
      second ∙ ap (λ (m : List Mark). m ++ b) first ∙ append_assoc (marks log) a b
  after log log' a b (err e, log'') first second = later log log' log'' a b first second
  after log log' a b (panicked why, log'') first second = later log log' log'' a b first second

  then_do-Leaves :
      {A B : Type 0} (log : List (Happening F)) (r : Outcome E A × List (Happening F))
      (f : A → Startup E F B) (a b : List Mark)
      → Leaves log r a
      → ((x : A) → Does (f x) b)
      → Leaves log (then_do r f) (a ++ b)
  then_do-Leaves log (ok x, log') f a b first second =
      after log log' a b (f x log') first ((second x).leaves log')
  then_do-Leaves log (err e, log') f a b first second = early log log' a b first
  then_do-Leaves log (panicked why, log') f a b first second = early log log' a b first

  -- One run after another.
  pub bind-Does :
      {A B : Type 0} (m : Startup E F A) (f : A → Startup E F B) (a b : List Mark)
      → Does m a
      → ((x : A) → Does (f x) b)
      → Does (m >>= f) (a ++ b)
  unfolding ◌>>=◌
  bind-Does m f a b first second = record {
    leaves = λ log. then_do-Leaves log (m log) f a b (first.leaves log) second;
  }

  -- A run that starts with a value, or with one from a call.
  pub pure_then-Does :
      {A B : Type 0} (a : A) (f : A → Startup E F B) (b : List Mark)
      → Does (f a) b
      → Does (pure a >>= f) b
  unfolding pure ◌>>=◌
  pure_then-Does a f b h = record { leaves = λ log. h.leaves log }

  pub try_then-Does :
      {A B C : Type 0} (r : E ⊎ A) (g : A → B) (f : B → Startup E F C) (b : List Mark)
      → ((a : A) → Does (f (g a)) b)
      → Does ((try r >>= λ a. pure (g a)) >>= f) b
  unfolding try pure ◌>>=◌
  try_then-Does (inl e) g f b h = record { leaves = λ log. ([], (b, refl), nothing log) }
  try_then-Does (inr a) g f b h = record { leaves = λ log. (h a).leaves log }

module _ (E : Type 0) {F : Type 0} where
  pub pure-Does : {A : Type 0} (a : A) → Does {E = E} {F = F} (pure a) []
  unfolding pure
  pure-Does a = record { leaves = λ log. nothing log }

  pub spawning-Does : (ts : Inside F) → Does {E = E} {F = F} (spawning ts) []
  unfolding spawning
  spawning-Does ts = record {
    leaves = λ log. marks-append log (inside ts) ∙ ap (λ m. marks log ++ m) (marks-inside ts);
  }

  pub happens-Does : (h : Happening F) → Does {E = E} {F = F} (happens h) (marks (h ∷ []))
  unfolding happens
  happens-Does h = record { leaves = λ log. marks-append log (h ∷ []) }
