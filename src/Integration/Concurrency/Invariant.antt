-- ===== src/Integration/Concurrency/Invariant.antt =====
-- The slots and the queue of the limiter, whatever the order of events.
use zsj_crm.Prelude.{
  ℕ, suc, ◌-◌, ◌≤◌, ◌<◌, ◌≡◌, refl, Bool, true, false, Option, none, some, List, [], ◌∷◌, ◌++◌,
  arith, length, All, zero, inl, inr, Option-cases, length-append,
}
use zsj_crm.Integration.Concurrency.{
  Options, Waiting, next_waiting, handed, release, splice, mark, System, Event, arrive, finish,
  without, flag, leave, resumed, finished, step, run, fresh,
}

pub record Inv (o : Options) (s : System) : Type 0 where
  -- The count is the number of operations that hold a slot.
  pub counted : s.limiter.active ≡ length s.running
  pub within : s.limiter.active ≤ o.limit
  pub queued : length s.limiter.queue ≤ o.max_queue
  -- Nothing waits while a slot is free.
  pub busy : 0 < length s.limiter.queue → s.limiter.active ≡ o.limit

length-next_waiting :
    (q : List Waiting) (w : Waiting) (ws : List Waiting)
    → next_waiting q ≡ some (w, ws)
    → length ws < length q
length-next_waiting [] w ws h = ground arith
length-next_waiting (v ∷ vs) w ws h = ground (arith, length-next_waiting vs w ws)

length-splice-le : (id : ℕ) (q : List Waiting) → length (splice id q) ≤ length q
length-splice-le id [] = omega arith
length-splice-le id (w ∷ ws) = ground (arith, length-splice-le id ws)

length-mark : (id : ℕ) (q : List Waiting) → length (mark id q) ≡ length q
length-mark id [] = refl
length-mark id (w ∷ ws) = ground (arith, length-mark id ws)

acquire-Inv :
    (o : Options) (id : ℕ) (a : Bool) (s : System) → Inv o s → Inv o (step o s (arrive id a))
unfolding step
acquire-Inv o id a s h =
    ground (arith, length-append {0} s.limiter.queue (record { id = id; aborted = false } ∷ []))

length-without : (i : ℕ) (rs ss : List ℕ) → without i rs ≡ some ss → length rs ≡ suc (length ss)
length-without i [] ss h = ground arith
length-without zero (r ∷ rs) ss h = ground arith
length-without (suc i) (r ∷ rs) ss h = elim (Option-cases (without i rs)) [
  | inl e ↦ ground arith
  | inr (t, e) ↦ ground (arith, length-without i rs t)
]

resumed-Inv :
    (o : Options) (s : System) (rs : List ℕ) (t : Option (Waiting × List Waiting))
    → next_waiting s.limiter.queue ≡ t
    → length s.running ≡ suc (length rs)
    → Inv o s
    → Inv o (resumed rs (handed (s.limiter.active - 1) t))
resumed-Inv o s rs none e l h = ground arith
resumed-Inv o s rs (some (w, ws)) e l h = ground (arith, length-next_waiting s.limiter.queue w ws)

finished-Inv :
    (o : Options) (s : System) (t : Option (List ℕ)) (i : ℕ)
    → without i s.running ≡ t
    → Inv o s
    → Inv o (finished s t)
unfolding release
finished-Inv o s none i e h = h
finished-Inv o s (some rs) i e h =
    resumed-Inv o s rs (next_waiting s.limiter.queue) refl (length-without i s.running rs e) h

step-Inv : (o : Options) (s : System) (e : Event) → Inv o s → Inv o (step o s e)
unfolding step
step-Inv o s (arrive id a) h = acquire-Inv o id a s h
step-Inv o s (finish i) h = finished-Inv o s (without i s.running) i refl h
step-Inv o s (flag id) h = ground (arith, length-mark id s.limiter.queue)
step-Inv o s (leave id) h = ground (arith, length-splice-le id s.limiter.queue)

run-Inv : (o : Options) (s : System) (es : List Event) → Inv o s → Inv o (run o s es)
unfolding run
run-Inv o s [] h = h
run-Inv o s (e ∷ es) h = run-Inv o (step o s e) es (step-Inv o s e h)

-- After any events: the count is the number of operations that hold a slot and is at most the limit,
-- the queue is within its bound, and operations wait only while every slot is taken.
pub run-within_limit : (o : Options) (es : List Event) → Inv o (run o fresh es)
run-within_limit o es = run-Inv o fresh es (omega arith)

next_waiting-append :
    (dropped : List Waiting) (w : Waiting) (rest : List Waiting)
    → All (λ v. v.aborted ≡ true) dropped
    → w.aborted ≡ false
    → next_waiting (dropped ++ w ∷ rest) ≡ some (w, rest)
next_waiting-append [] w rest d h = rw h
next_waiting-append (v ∷ vs) w rest d h = rw d.0 (next_waiting-append vs w rest d.1 h)

-- A finishing operation hands its slot to the first operation that waits and was not aborted.
pub release-first :
    (active : ℕ) (dropped : List Waiting) (w : Waiting) (rest : List Waiting)
    → All (λ v. v.aborted ≡ true) dropped
    → w.aborted ≡ false
    → release (record { active = suc active; queue = dropped ++ w ∷ rest })
      ≡ (record { active = suc active; queue = rest }, some w.id)
unfolding release
release-first active dropped w rest d h = rw (next_waiting-append dropped w rest d h) (ground arith)
