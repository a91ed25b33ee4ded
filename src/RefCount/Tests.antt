-- ===== src/RefCount/Tests.antt =====
-- Two variables on one object, of which the first goes on to another.
mod Threads
use microjit.Prelude.{◌≡◌, refl, List, [], ◌∷◌, none, some, arith}
use microjit.Prelude.Dict.{lookup, insert, erase}
use microjit.RefCount.{
  Heap, Operation, new_object, copy_from, assign, destroy, perform, perform_all, reference,
  unref_count, unref_found, unref_at, unref, ref_count, point, ref_unless, ref, clear, make_ref,
  null, copy,
}
use microjit.RefCount.Holders.{holders}
use microjit.RefCount.Counted.{IsCounted}
use microjit.RefCount.Histories.{AllLegal, perform_all-IsCounted}

abbrev nothing : Heap
nothing = record { refcounts = []; refs = [] }

abbrev history : List Operation
history = new_object 500 ∷ copy_from 0 ∷ new_object 600 ∷ assign 0 2 ∷ destroy 1 ∷ []

history_run :
    perform_all nothing history
    ≡ (record { refcounts = (600, 2) ∷ []; refs = some 600 ∷ none ∷ some 600 ∷ [] })
unfolding perform_all perform lookup insert erase reference unref_count unref_found unref_at unref
    ref_count point ref_unless ref clear make_ref null copy
history_run = refl

nothing-IsCounted : IsCounted nothing
unfolding lookup holders
nothing-IsCounted = record { counted = λ a. refl; positive = λ a e. cc }

history-AllLegal : AllLegal nothing history
unfolding perform lookup insert erase reference unref_count unref_found unref_at unref ref_count
    point ref_unless ref clear make_ref null copy
history-AllLegal = (
  refl,
  (
    (omega arith, (some 500, refl)),
    (
      refl,
      ((omega arith, (some 500, refl), (some 600, refl)), ((omega arith, (some 500, refl)), tt)),
    ),
  ),
)

perform_all-IsCounted_example : IsCounted (perform_all nothing history)
perform_all-IsCounted_example =
    perform_all-IsCounted history nothing nothing-IsCounted history-AllLegal
