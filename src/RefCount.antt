-- ===== src/RefCount.antt =====
-- `Ref<T>` and `ThreadUnsafeObject` of src/microjit/helper.h: a store of objects with their counts,
-- and the `Ref` variables that refer to them, by number. A deleted object leaves the store; a `Ref`
-- that has been destroyed, or that is null, refers to nothing. The objects hold no `Ref`s of their own, whose
-- destructors would run when the object is deleted.
pub mod Holders
pub mod Counted
pub mod Lifetimes
pub mod Histories
pub mod Atomic
pub mod Disposal
pub mod Disposing
mod Tests
use microjit.Prelude.{
  ℕ, zero, suc, ◌+◌, ◌-◌, ◌%◌, ◌^◌, Bool, true, false, List, [], ◌∷◌, ◌++◌, Option, none, some,
  ◌==◌, if◌then◌else◌, get_elem?, set, length,
}
use microjit.Prelude.Dict

pub record Heap : Type 0 where
  pub refcounts : List (ℕ × ℕ)
  pub refs : List (Option ℕ)

abbrev pub u32 : ℕ → ℕ
u32 n = n % 2 ^ 32

-- the pointer that a `Ref` has, null for one that is not there
abbrev pub or_null : Option (Option ℕ) → Option ℕ
or_null none = none
or_null (some r) = r

-- the pointer in `Ref` number `i`
unfoldable pub reference : Heap → ℕ → Option ℕ
reference h i = or_null (get_elem? h.refs i)

-- `Ref::unref`, by the count that `ThreadUnsafeObject::unref` reaches: the last one deletes the object, which
-- holds no `Ref` of its own.
unfoldable pub unref_count : Heap → ℕ → ℕ → ℕ → Heap
unref_count h i a zero = record { refcounts = Dict.erase a h.refcounts; refs = set h.refs i none }
unref_count h i a (suc count) = record h { refcounts = Dict.insert a (suc count) h.refcounts }

-- by the count of the object; without one the object is gone, and nothing sensible happens
unfoldable pub unref_found : Heap → ℕ → ℕ → Option ℕ → Heap
unref_found h i a none = h
unref_found h i a (some count) = unref_count h i a (u32 (count + (2 ^ 32 - 1)))

-- by the pointer
unfoldable pub unref_at : Heap → ℕ → Option ℕ → Heap
unref_at h i none = h
unref_at h i (some a) = unref_found h i a (Dict.lookup a h.refcounts)

unfoldable pub unref : Heap → ℕ → Heap
unref h i = unref_at h i (reference h i)

-- `ThreadUnsafeObject::ref`, which leaves a count of zero as it is
unfoldable pub ref_count : Heap → ℕ → Option ℕ → List (ℕ × ℕ)
ref_count h a none = h.refcounts
ref_count h a (some zero) = h.refcounts
ref_count h a (some (suc count)) = Dict.insert a (u32 (suc count + 1)) h.refcounts

-- `reference = ...; if (reference) reference->ref();`
unfoldable pub point : Heap → ℕ → Option ℕ → Heap
point h i none = record h { refs = set h.refs i none }
point h i (some a) = record {
  refcounts = ref_count h a (Dict.lookup a h.refcounts);
  refs = set h.refs i (some a);
}

-- whether two pointers are equal
abbrev pub same : Option ℕ → Option ℕ → Bool
same none none = true
same (some a) (some b) = a == b
same _ _ = false

-- `Ref::ref`, by whether the pointers are equal
unfoldable pub ref_unless : Bool → Heap → ℕ → ℕ → Heap
ref_unless true h i from = h
ref_unless false h i from = point (unref h i) i (reference (unref h i) from)

-- `Ref::ref`, which `operator=` and the copy constructor call
unfoldable pub ref : Heap → ℕ → ℕ → Heap
ref h i from = ref_unless (same (reference h from) (reference h i)) h i from

-- `operator=(nullptr)`, and the destructor
unfoldable pub clear : Heap → ℕ → Heap
clear h i = let h' = unref h i in record h' { refs = set h'.refs i none }

-- `from_uninitialized_object` on a new object, with a new `Ref`
unfoldable pub make_ref : Heap → ℕ → Heap
make_ref h a = record { refcounts = Dict.insert a 1 h.refcounts; refs = h.refs ++ some a ∷ [] }

-- a new null `Ref`
unfoldable pub null : Heap → Heap
null h = record h { refs = h.refs ++ none ∷ [] }

-- the copy constructor: a null `Ref`, and `ref`
unfoldable pub copy : Heap → ℕ → Heap
copy h from = ref (null h) (length h.refs) from

-- what a program does with its `Ref` variables: the constructors, `operator=`, and the destructor or
-- `operator=(nullptr)`
pub data Operation : Type 0 where
  new_object : (address : ℕ) → Operation
  declare_null : Operation
  copy_from : (from : ℕ) → Operation
  assign : (i from : ℕ) → Operation
  destroy : (i : ℕ) → Operation

unfoldable pub perform : Heap → Operation → Heap
perform h (new_object a) = make_ref h a
perform h declare_null = null h
perform h (copy_from from) = copy h from
perform h (assign i from) = ref h i from
perform h (destroy i) = clear h i

unfoldable pub perform_all : Heap → List Operation → Heap
perform_all h [] = h
perform_all h (op ∷ rest) = perform_all (perform h op) rest
