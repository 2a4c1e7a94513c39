-- ===== src/Integration/Concurrency.antt =====
-- limits.ts, `createConcurrencyLimiter`. An operation that waits is known by a number. A signal's
-- abort has two effects, in this order: the flag that `release` reads, and the listener that takes
-- the operation out of the queue; both are steps of their own, since other code can run in between.
pub mod Invariant
use zsj_crm.Prelude.{
  ℕ, zero, suc, ◌+◌, ◌-◌, Bool, true, false, Option, none, some, List, [], ◌∷◌, ◌++◌, leb, ltb,
  if◌then◌else◌, ◌==◌, length, Number, safe_from,
}
use zsj_crm.Integration.Errors.{
  invalid_input, cancelled, concurrency_limited, Result, ok, throws, fatal, Thrown, transient,
}

pub record Options : Type 0 where
  pub limit : ℕ
  pub max_queue : ℕ

pub record Waiting : Type 0 where
  pub id : ℕ
  pub aborted : Bool

pub record Limiter : Type 0 where
  pub active : ℕ
  pub queue : List Waiting

abbrev with_options : Option ℕ → Option ℕ → Result Options
with_options (some l) (some q) = ok (record { limit = l; max_queue = q })
with_options _ _ = throws (fatal invalid_input)

unfoldable pub create : Number → Number → Result Options
create limit max_queue = with_options (safe_from 1 limit) (safe_from 0 max_queue)

-- The `while` loop of `release`: the first operation that was not aborted, and the rest.
abbrev pub next_waiting : List Waiting → Option (Waiting × List Waiting)
next_waiting [] = none
next_waiting (w ∷ ws) = let rest = next_waiting ws in if w.aborted then rest else some (w, ws)

abbrev handed : ℕ → Option (Waiting × List Waiting) → Limiter × Option ℕ
handed active none = (record { active = active; queue = [] }, none)
handed active (some (w, ws)) = (record { active = active + 1; queue = ws }, some w.id)

-- `release`, with the operation that it resumes.
unfoldable pub release : Limiter → Limiter × Option ℕ
release s = handed (s.active - 1) (next_waiting s.queue)

-- What `acquire` does before any wait: it fails, holds a slot, or waits in the queue.
pub data Acquired : Type 0 where
  refused : Thrown → Acquired
  entered waits : Acquired

unfoldable pub acquire : Options → ℕ → Bool → Limiter → Limiter × Acquired
acquire o id aborted s =
    if aborted
    then (s, refused (fatal cancelled))
    else if ltb s.active o.limit
    then (record s { active = s.active + 1 }, entered)
    else if leb o.max_queue (length s.queue)
    then (s, refused (transient concurrency_limited))
    else (record s { queue = s.queue ++ record { id = id; aborted = false } ∷ [] }, waits)

-- `queue.indexOf(waiting)` with `splice`.
abbrev pub splice : ℕ → List Waiting → List Waiting
splice id [] = []
splice id (w ∷ ws) = if w.id == id then ws else w ∷ splice id ws

unfoldable pub cancel : ℕ → Limiter → Limiter
cancel id s = record s { queue = splice id s.queue }

abbrev pub mark : ℕ → List Waiting → List Waiting
mark id [] = []
mark id (w ∷ ws) = (if w.id == id then record w { aborted = true } else w) ∷ mark id ws

-- The limiter with the operations that hold a slot.
pub record System : Type 0 where
  pub limiter : Limiter
  pub running : List ℕ

pub data Event : Type 0 where
  arrive : (id : ℕ) (aborted : Bool) → Event
  finish : (index : ℕ) → Event
  flag leave : (id : ℕ) → Event

abbrev arrived : ℕ → List ℕ → Limiter × Acquired → System
arrived id running (s, refused e) = record { limiter = s; running = running }
arrived id running (s, entered) = record { limiter = s; running = id ∷ running }
arrived id running (s, waits) = record { limiter = s; running = running }

abbrev resumed : List ℕ → Limiter × Option ℕ → System
resumed running (s, none) = record { limiter = s; running = running }
resumed running (s, some id) = record { limiter = s; running = id ∷ running }

-- The operations that hold a slot without the i-th one.
abbrev pub without : ℕ → List ℕ → Option (List ℕ)
without i [] = none
without zero (r ∷ rs) = some rs
without (suc i) (r ∷ rs) = elim (without i rs) [ none ↦ none | some ss ↦ some (r ∷ ss) ]

abbrev finished : System → Option (List ℕ) → System
finished s none = s
finished s (some rs) = resumed rs (release s.limiter)

unfoldable pub step : Options → System → Event → System
unfolding release acquire cancel
step o s (arrive id aborted) = arrived id s.running (acquire o id aborted s.limiter)
step o s (finish i) = finished s (without i s.running)
step o s (flag id) = record s { limiter = record s.limiter { queue = mark id s.limiter.queue } }
step o s (leave id) = record s { limiter = cancel id s.limiter }

unfoldable pub run : Options → System → List Event → System
run o s [] = s
run o s (e ∷ es) = run o (step o s e) es

abbrev pub fresh : System
fresh = record { limiter = record { active = 0; queue = [] }; running = [] }
