-- ===== src/Frame/Separation.antt =====
-- Variables that are alive together never share a byte of the frame.
use microjit.Prelude.{
  ℕ, ◌+◌, ◌*◌, ◌≤◌, ◌≡◌, refl, sym, ◌∙◌, ◌⊎◌, inl, inr, List, [], ◌∷◌, ◌++◌, some, arith, All,
}
use microjit.Prelude.Dict
use microjit.Prelude.Int.{ℤ, neg_ℕ}
use microjit.Types.{CxxType, simple_16_bit_align}
use microjit.CallLayout.Disjoint.{le-align}
use microjit.Ir.{declare_variable}
use microjit.Ir.Snapshot.{Snapshot, done, leaf, enter, declared, scope_count, Absent, Distinct}
use microjit.Frame.{StackFrameInfo, aligned_size, declare, create_frame_report, stack_reserve}
use microjit.Frame.Layout.{layout}
use microjit.Frame.Equivalence.{empty_report, create_frame_report-layout}

-- The variables of a scope in a frame of `frame` bytes, by the offsets that `m` gives. `live` holds
-- how far below the base pointer the variables start that are alive where the scope begins. Each
-- variable starts `d` bytes below the base pointer, inside the frame and below the reserve, and
-- ends above nothing that is alive: its bytes are `d` to `d - size`, theirs start at `e ≤ d - size`.
abbrev pub IsSeparated : List (ℕ × ℤ) → ℕ → List ℕ → Snapshot → Type 0
IsSeparated m frame live done = Unit
IsSeparated m frame live (leaf (declare_variable v) rest) =
    (d : ℕ) × (Dict.lookup v.address m ≡ some (neg_ℕ d))
    × (d ≤ frame)
    × (stack_reserve + v.type_of.size ≤ d)
    × All (λ e. e + v.type_of.size ≤ d) live
    × IsSeparated m frame (d ∷ live) rest
IsSeparated m frame live (leaf _ rest) = IsSeparated m frame live rest
IsSeparated m frame live (enter _ child rest) =
    IsSeparated m frame live child × IsSeparated m frame live rest

Present : ℕ → List ℕ → Type 0
Present k [] = ⊥
Present k (j ∷ js) = (j ≡ k) ⊎ Present k js

Present-append_left : (k : ℕ) (xs ys : List ℕ) → Present k xs → Present k (xs ++ ys)
unfolding Present
Present-append_left k [] ys p = absurd p
Present-append_left k (x ∷ xs) ys (inl e) = inl e
Present-append_left k (x ∷ xs) ys (inr p) = inr (Present-append_left k xs ys p)

Present-append_right : (k : ℕ) (xs ys : List ℕ) → Present k ys → Present k (xs ++ ys)
unfolding Present
Present-append_right k [] ys p = p
Present-append_right k (x ∷ xs) ys p = inr (Present-append_right k xs ys p)

Absent-append : (k : ℕ) (xs ys : List ℕ) → Absent k (xs ++ ys) → Absent k xs × Absent k ys
Absent-append k [] ys a = (tt, a)
Absent-append k (x ∷ xs) ys a = let (l, r) = Absent-append k xs ys a.1 in ((a.0, l), r)

Distinct-append : (xs ys : List ℕ) → Distinct (xs ++ ys) → Distinct xs × Distinct ys
Distinct-append [] ys d = (tt, d)
Distinct-append (x ∷ xs) ys d =
    let (l, r) = Distinct-append xs ys d.1 in (((Absent-append x xs ys d.0).0, l), r)

Absent-eq : (j k : ℕ) (xs : List ℕ) → j ≡ k → Absent j xs → Absent k xs
Absent-eq j k [] e a = tt
Absent-eq j k (x ∷ xs) e a = (λ p. a.0 (p ∙ sym e), Absent-eq j k xs e a.1)

-- a number of the first part of a list without repetition is not in the second
Distinct-apart : (k : ℕ) (xs ys : List ℕ) → Distinct (xs ++ ys) → Present k xs → Absent k ys
unfolding Present
Distinct-apart k [] ys d p = absurd p
Distinct-apart k (x ∷ xs) ys d (inl e) = Absent-eq x k ys e (Absent-append x xs ys d.0).1
Distinct-apart k (x ∷ xs) ys d (inr p) = Distinct-apart k xs ys d.1 p

layout-Absent :
    (p : Snapshot) (s c : ℕ) (r : StackFrameInfo) (k : ℕ)
    → Absent k (declared p)
    → Dict.lookup k (layout p s c r).variable_map ≡ Dict.lookup k r.variable_map
unfolding layout declare declared
layout-Absent done s c r k a = refl
layout-Absent (leaf (declare_variable v) rest) s c r k a =
    let s' = s + aligned_size s v.type_of in
    layout-Absent rest s' (c + 1) _ k a.1
    ∙ ground (arith, a.0, Dict.lookup-insert v.address k (neg_ℕ s') r.variable_map)
layout-Absent (leaf _ rest) s c r k a = layout-Absent rest s c r k a
layout-Absent (enter _ child rest) s c r k a =
    let (l, q) = Absent-append k (declared child) (declared rest) a in
    layout-Absent rest s c (layout child s c r) k q ∙ layout-Absent child s c r k l

layout_max :
    (p : Snapshot) (s c : ℕ) (r : StackFrameInfo)
    → r.max_frame_size ≤ (layout p s c r).max_frame_size
unfolding layout declare
layout_max done s c r = omega arith
layout_max (leaf (declare_variable v) rest) s c r =
    let s' = s + aligned_size s v.type_of in
    omega (arith, layout_max rest s' (c + 1) (declare v s' (c + 1) r))
layout_max (leaf _ rest) s c r = layout_max rest s c r
layout_max (enter _ child rest) s c r =
    omega (arith, layout_max child s c r, layout_max rest s c (layout child s c r))

size-le-aligned_size : (s : ℕ) (t : CxxType) → t.size ≤ aligned_size s t
unfolding aligned_size
size-le-aligned_size s t = ground arith

All-le :
    (live : List ℕ) (s d size : ℕ)
    → s + size ≤ d
    → All (λ e. e ≤ s) live
    → All (λ e. e + size ≤ d) live
All-le [] s d size h a = tt
All-le (e ∷ live) s d size h a = (omega (arith, a.0), All-le live s d size h a.1)

All-mono : (live : List ℕ) (s d : ℕ) → s ≤ d → All (λ e. e ≤ s) live → All (λ e. e ≤ d) live
All-mono [] s d h a = tt
All-mono (e ∷ live) s d h a = (omega (arith, a.0), All-mono live s d h a.1)

layout_separates :
    (m : List (ℕ × ℤ)) (frame : ℕ) (p : Snapshot) (s c : ℕ) (r : StackFrameInfo) (live : List ℕ)
    → Distinct (declared p)
    → ((k : ℕ)
        → Present k (declared p)
        → Dict.lookup k m ≡ Dict.lookup k (layout p s c r).variable_map)
    → (layout p s c r).max_frame_size ≤ frame
    → stack_reserve ≤ s
    → All (λ e. e ≤ s) live
    → IsSeparated m frame live p
unfolding layout declare declared Present
layout_separates m frame done s c r live d same fits low under = tt
layout_separates m frame (leaf (declare_variable v) rest) s c r live d same fits low under =
    let s' = s + aligned_size s v.type_of in
    let r' = declare v s' (c + 1) r in
    let grows = size-le-aligned_size s v.type_of in
    (
      s',
      same v.address (inl refl)
          ∙ layout-Absent rest s' (c + 1) r' v.address d.0
          ∙ ground (arith, Dict.lookup-insert v.address v.address (neg_ℕ s') r.variable_map),
      omega (arith, layout_max rest s' (c + 1) r'),
      omega arith,
      All-le live s s' v.type_of.size (omega arith) under,
      layout_separates m frame rest s' (c + 1) r' (s' ∷ live) d.1 (λ k q. same k (inr q)) fits
          (omega arith) (omega arith, All-mono live s s' (omega arith) under),
    )
layout_separates m frame (leaf _ rest) s c r live d same fits low under =
    layout_separates m frame rest s c r live d same fits low under
layout_separates m frame (enter _ child rest) s c r live d same fits low under =
    let inner = layout child s c r in
    let (dc, dr) = Distinct-append (declared child) (declared rest) d in
    (
      layout_separates m frame child s c r live dc
          (λ k q.
            same k (Present-append_left k (declared child) (declared rest) q)
            ∙ layout-Absent rest s c inner k
                (Distinct-apart k (declared child) (declared rest) d q))
          (omega (arith, layout_max rest s c inner)) low under,
      layout_separates m frame rest s c inner live dr
          (λ k q. same k (Present-append_right k (declared child) (declared rest) q)) fits low
          under,
    )

-- Whatever the scopes of a function, provided that no variable is declared twice, the frame report
-- gives each variable bytes of its own: inside the frame, below the reserve where the compiled
-- code keeps its argument pointer, and apart from every variable that is alive with it.
pub create_frame_report-IsSeparated :
    (fuel : ℕ) (ret : CxxType) (args : List CxxType) (main_scope : Snapshot)
    → 2 * scope_count main_scope ≤ fuel
    → Distinct (declared main_scope)
    → (report : StackFrameInfo) × (create_frame_report fuel ret args main_scope ≡ some report)
      × IsSeparated report.variable_map report.max_frame_size [] main_scope
create_frame_report-IsSeparated fuel ret args main_scope h d =
    let report = layout main_scope stack_reserve 0 (empty_report ret args) in
    (
      record report { max_frame_size = simple_16_bit_align report.max_frame_size },
      create_frame_report-layout fuel ret args main_scope h,
      layout_separates _ _ main_scope stack_reserve 0 (empty_report ret args) [] d (λ k q. refl)
          (le-align report.max_frame_size) (omega arith) tt,
    )
