-- ===== src/Template/Counter.antt =====
-- The two calls of the template pallet together make a counter that stops at the largest `u32`.
use ghost_blockchain.Base.{ℕ, zero, suc, ◌+◌, ◌≤◌, ◌≡◌, some, arith, refl, sym, min, u32_max}
use ghost_blockchain.Types.{Origin}
use ghost_blockchain.Template.{TemplateState, do_something, cause_error}

-- `n` calls of `cause_error`, each of which rolls back if it fails.
abbrev pub repeat : (n who : ℕ) → TemplateState → TemplateState
repeat zero who s = s
repeat (suc n) who s = repeat n who (cause_error (Origin.signed who) s).1

repeat-some :
    (n who v : ℕ) (s : TemplateState)
    → v ≤ u32_max
    → s.something ≡ some v
    → (repeat n who s).something ≡ some (min (v + n) u32_max)
unfolding cause_error
repeat-some zero who v s h e = ground arith
repeat-some (suc n) who v s h e =
    let next = (cause_error (Origin.signed who) s).1 in
    let stored : next.something ≡ some (min (v + 1) u32_max) = ground arith in
    let same : min (min (v + 1) u32_max + n) u32_max ≡ min (v + suc n) u32_max = omega arith in
    rw (sym same) (repeat-some n who (min (v + 1) u32_max) next (omega arith) stored)

-- After a signed `do_something v`, `n` calls of `cause_error` leave `v + n`, or the largest `u32`
-- if that is less.
pub repeat-do_something :
    (n who v : ℕ) (s : TemplateState)
    → v ≤ u32_max
    → (repeat n who (do_something (Origin.signed who) v s).1).something ≡ some (min (v + n) u32_max)
unfolding do_something
repeat-do_something n who v s h =
    repeat-some n who v (do_something (Origin.signed who) v s).1 h refl
