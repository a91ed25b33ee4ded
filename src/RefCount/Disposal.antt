-- ===== src/RefCount/Disposal.antt =====
-- `SafeRefCount` of src/microjit/safe_refcount.h disposes of its object once, when nobody holds it.
use mathlib.Core.Path.{subst}
use microjit.Prelude.{
  ℕ, zero, suc, ◌+◌, ◌-◌, ◌%◌, ◌^◌, ◌≤◌, ◌<◌, ◌≡◌, refl, ◌∙◌, Bool, true, not, ◌&&◌, List, [], ◌∷◌,
  Option, none, some, arith, ◌==◌, if◌then◌else◌, get_elem?, set, length, Bool-cases, inl, inr,
}
use microjit.RefCount.Atomic.{
  Point, outside, at_load, at_exchange, Thread, Counter, Action, call_ref, load, call_unref,
  exchange, after_load, after_exchange, unref_counter, act, step_of, run_schedule,
}

-- what all threads hold
unfoldable pub total : List Thread → ℕ
total [] = 0
total (t ∷ ts) = t.holds + total ts

total-set :
    (ts : List Thread) (i : ℕ) (t u : Thread)
    → get_elem? ts i ≡ some t
    → total (set ts i u) + t.holds ≡ total ts + u.holds
unfolding total
total-set [] i t u h = cc
total-set (x ∷ ts) zero t u h = let same : x.holds ≡ t.holds = cc in omega arith
total-set (x ∷ ts) (suc i) t u h = let rest = total-set ts i t u h in omega arith

holds-le-total :
    (ts : List Thread) (i : ℕ) (t : Thread) → get_elem? ts i ≡ some t → t.holds ≤ total ts
unfolding total
holds-le-total [] i t h = cc
holds-le-total (x ∷ ts) zero t h = let same : x.holds ≡ t.holds = cc in omega arith
holds-le-total (x ∷ ts) (suc i) t h = let rest = holds-le-total ts i t h in omega arith

-- nobody waits to exchange a count of 0
unfoldable pub NonZero : Point → Type 0
NonZero (at_exchange loaded) = 0 < loaded
NonZero _ = Unit

abbrev pub AllNonZero : List Thread → Type 0
AllNonZero [] = Unit
AllNonZero (t ∷ ts) = NonZero t.point × AllNonZero ts

AllNonZero-set :
    (ts : List Thread) (i : ℕ) (u : Thread)
    → AllNonZero ts
    → NonZero u.point
    → AllNonZero (set ts i u)
AllNonZero-set [] i u h g = tt
AllNonZero-set (t ∷ ts) zero u h g = (g, h.1)
AllNonZero-set (t ∷ ts) (suc i) u h g = (h.0, AllNonZero-set ts i u h.1 g)

AllNonZero-at :
    (ts : List Thread) (i : ℕ) (t : Thread)
    → AllNonZero ts
    → get_elem? ts i ≡ some t
    → NonZero t.point
AllNonZero-at [] i t h e = cc
AllNonZero-at (x ∷ ts) zero t h e = let same : x ≡ t = cc in subst (λ t. NonZero t.point) same h.0
AllNonZero-at (x ∷ ts) (suc i) t h e = AllNonZero-at ts i t h.1 e

-- The counter is what the threads hold, and disposing has been asked for once if that is nothing, and
-- not at all otherwise; the threads hold at most `bound`.
pub record IsBalanced (bound : ℕ) (c : Counter) (held : ℕ) : Type 0 where
  pub counted : c.value ≡ held
  pub disposed : c.disposals ≡ (if c.value == 0 then 1 else 0)
  pub below : held ≤ bound

-- what one action does to the invariant
abbrev Keeps : (bound held holds : ℕ) → Option (Counter × Thread) → Type 0
Keeps bound held holds none = Unit
Keeps bound held holds (some (c, t)) =
    NonZero t.point × IsBalanced (suc bound) c (held - holds + t.holds)

after_load-NonZero : (value : ℕ) → NonZero (after_load value)
unfolding after_load NonZero
after_load-NonZero value = elim (Bool-cases (value == 0)) [
  | inl e ↦ rw e tt
  | inr e ↦ rw e (let positive : 0 < value = ground arith in positive)
]

unref_counter-IsBalanced :
    (bound held : ℕ) (c : Counter)
    → bound + 1 < 2 ^ 32
    → 0 < held
    → IsBalanced bound c held
    → IsBalanced (suc bound) (unref_counter c) (held - 1)
unfolding unref_counter
unref_counter-IsBalanced bound held c small h b =
    let e = b.counted in
    let d = b.disposed in
    let l = b.below in
    let none_yet : c.disposals ≡ 0 = ground arith in
    let fewer : (c.value + (2 ^ 32 - 1)) % 2 ^ 32 ≡ held - 1 = omega arith in
    record { counted = fewer; disposed = ground arith; below = omega arith }

-- the same counter with more room
wider :
    (bound held same : ℕ) (c : Counter)
    → held ≡ same
    → IsBalanced bound c held
    → IsBalanced (suc bound) c same
wider bound held same c e b =
    let counted = b.counted in
    let below = b.below in
    record { counted = counted ∙ e; disposed = b.disposed; below = omega arith }

after_exchange-Keeps :
    (bound held : ℕ) (spurious : Bool) (loaded : ℕ) (c : Counter) (holds : ℕ)
    → bound + 1 < 2 ^ 32
    → holds ≤ held
    → 0 < loaded
    → IsBalanced bound c held
    → Keeps bound held holds (some (after_exchange spurious loaded c holds))
unfolding after_exchange NonZero
after_exchange-Keeps bound held spurious loaded c holds small le positive b =
    elim (Bool-cases (not spurious && c.value == loaded)) [
      | inl e ↦ rw e (tt, taken e)
      | inr e ↦ rw e (tt, wider bound held (held - holds + holds) c (omega arith) b)
    ]
  where
    taken :
        (not spurious && c.value == loaded) ≡ true
        → IsBalanced
            (suc bound)
            (record c { value = (loaded + 1) % 2 ^ 32 })
            (held - holds + (holds + 1))
    taken e =
        let counted = b.counted in
        let d = b.disposed in
        let l = b.below in
        let same : c.value ≡ loaded = ground arith in
        let none_yet : c.disposals ≡ 0 = ground arith in
        let more : (loaded + 1) % 2 ^ 32 ≡ held - holds + (holds + 1) = omega arith in
        record { counted = more; disposed = ground arith; below = omega arith }

act-Keeps :
    (bound held : ℕ) (action : Action) (c : Counter) (holds : ℕ) (point : Point)
    → bound + 1 < 2 ^ 32
    → holds ≤ held
    → NonZero point
    → IsBalanced bound c held
    → Keeps bound held holds (act action c holds point)
unfolding act NonZero
act-Keeps bound held call_ref c holds outside small le p b =
    (tt, wider bound held (held - holds + holds) c (omega arith) b)
act-Keeps bound held call_ref c holds at_load small le p b = tt
act-Keeps bound held call_ref c holds (at_exchange loaded) small le p b = tt
act-Keeps bound held load c holds outside small le p b = tt
act-Keeps bound held load c holds at_load small le p b =
    (after_load-NonZero c.value, wider bound held (held - holds + holds) c (omega arith) b)
act-Keeps bound held load c holds (at_exchange loaded) small le p b = tt
act-Keeps bound held (exchange spurious) c holds outside small le p b = tt
act-Keeps bound held (exchange spurious) c holds at_load small le p b = tt
act-Keeps bound held (exchange spurious) c holds (at_exchange loaded) small le p b =
    after_exchange-Keeps bound held spurious loaded c holds small le p b
act-Keeps bound held call_unref c zero outside small le p b = tt
act-Keeps bound held call_unref c (suc holds) outside small le p b =
    let same : held - 1 ≡ held - suc holds + holds = omega arith in
    (
      tt,
      subst (λ n. IsBalanced (suc bound) (unref_counter c) n) same
          (unref_counter-IsBalanced bound held c small (omega arith) b),
    )
act-Keeps bound held call_unref c zero at_load small le p b = tt
act-Keeps bound held call_unref c zero (at_exchange loaded) small le p b = tt
act-Keeps bound held call_unref c (suc holds) at_load small le p b = tt
act-Keeps bound held call_unref c (suc holds) (at_exchange loaded) small le p b = tt

-- the invariant of the counter and all threads
pub record IsDisposedOnce (bound : ℕ) (c : Counter) (threads : List Thread) : Type 0 where
  pub balanced : IsBalanced bound c (total threads)
  pub all_non_zero : AllNonZero threads

-- the invariant of what there is after some actions, if they are possible
abbrev pub Ends : ℕ → Option (Counter × List Thread) → Type 0
Ends bound none = Unit
Ends bound (some r) = IsDisposedOnce bound r.0 r.1

store_thread :
    (bound : ℕ) (threads : List Thread) (i : ℕ) (t : Thread) (r : Option (Counter × Thread))
    → get_elem? threads i ≡ some t
    → AllNonZero threads
    → Keeps bound (total threads) t.holds r
    → Ends (suc bound) (elim r [ none ↦ none | some s ↦ some (s.0, set threads i s.1) ])
store_thread bound threads i t none e a k = tt
store_thread bound threads i t (some (c, u)) e a k =
    let kept = total-set threads i t u e in
    let le = holds-le-total threads i t e in
    let same : total threads - t.holds + u.holds ≡ total (set threads i u) = omega arith in
    record {
      balanced = subst (λ n. IsBalanced (suc bound) c n) same k.1;
      all_non_zero = AllNonZero-set threads i u a k.0;
    }

step_of-Ends :
    (bound : ℕ) (c : Counter) (threads : List Thread) (i : ℕ) (action : Action) (o : Option Thread)
    → get_elem? threads i ≡ o
    → bound + 1 < 2 ^ 32
    → IsDisposedOnce bound c threads
    → Ends (suc bound) (step_of c threads i action o)
unfolding step_of
step_of-Ends bound c threads i action none e small b = tt
step_of-Ends bound c threads i action (some t) e small b =
    store_thread bound threads i t (act action c t.holds t.point) e b.all_non_zero (
      act-Keeps bound (total threads) action c t.holds t.point small (holds-le-total threads i t e)
        (AllNonZero-at threads i t b.all_non_zero e) b.balanced)

Ends-then :
    (rest : List (ℕ × Action)) (bound more : ℕ) (r : Option (Counter × List Thread))
    → Ends (suc bound) r
    → ((d : Counter) (after : List Thread)
        → IsDisposedOnce (suc bound) d after
        → Ends more (run_schedule rest d after))
    → Ends more (elim r [ none ↦ none | some s ↦ run_schedule rest s.0 s.1 ])
Ends-then rest bound more none h k = tt
Ends-then rest bound more (some (d, after)) h k = k d after h

pub run_schedule-Ends :
    (schedule : List (ℕ × Action)) (bound : ℕ) (c : Counter) (threads : List Thread)
    → bound + length schedule < 2 ^ 32
    → IsDisposedOnce bound c threads
    → Ends (bound + length schedule) (run_schedule schedule c threads)
unfolding run_schedule
run_schedule-Ends [] bound c threads small b =
    let same : bound ≡ bound + 0 = omega arith in subst (λ n. IsDisposedOnce n c threads) same b
run_schedule-Ends ((i, action) ∷ rest) bound c threads small b =
    let same : suc bound + length rest ≡ bound + suc (length rest) = omega arith in
    subst (λ n. Ends n (run_schedule ((i, action) ∷ rest) c threads)) same
      (Ends-then rest bound (suc bound + length rest)
        (step_of c threads i action (get_elem? threads i))
        (step_of-Ends bound c threads i action (get_elem? threads i) refl (omega arith) b)
        (λ d after h. run_schedule-Ends rest (suc bound) d after (omega arith) h))
