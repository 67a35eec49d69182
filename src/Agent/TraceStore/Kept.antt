-- ===== src/Agent/TraceStore/Kept.antt =====
-- internal/agent/trace.go: the store of traces stays sound, and keeps the run of the last event.
use gigi_dc.Prelude.{
  ℕ, suc, ◌≡◌, refl, String, ◌==◌, eq_iff, Bool, true, false, ◌&&◌, ◌||◌, not, none, some, List, [],
  ◌∷◌, push, or_else, is_some, ltb, eqb, length, any, All, Bool-cases, Option-cases, inl, inr,
  arith, subst, All-map, All-pair, All-push, any-push, any_none, length-push,
}
use gigi_dc.Prelude.Maps.{
  lookup, insert, delete, IsMap, lookup-insert, lookup-delete, delete-IsMap, insert-IsMap,
  length-insert, length-delete,
}
use gigi_dc.Agent.{Request, TraceEvent}
use gigi_dc.Agent.TraceStore.{
  TraceRun, MemoryTraceStore, trim_order, delete_values, record_event, new_run, add_event,
}

abbrev pub Runs : Type 0
Runs = List (String × TraceRun)

abbrev NoDup : List String → Type 0
NoDup [] = Unit
NoDup (x ∷ xs) = (any (λ y. x == y) xs ≡ false) × NoDup xs

-- The order lists the keys of the runs, each once.
abbrev IsOrdered : List (String × TraceRun) → List String → Type 0
IsOrdered runs order =
    IsMap runs
    × (All (λ k. is_some (lookup k runs) ≡ true) order
        × (NoDup order × (length runs ≡ length order)))

abbrev pub IsSound : MemoryTraceStore → Type 0
IsSound s =
    IsOrdered s.runs s.order × ((eqb s.max_runs 0 || not (ltb s.max_runs (length s.order))) ≡ true)

NoDup-push :
    (xs : List String) (y : String) → NoDup xs → All (λ x. (x == y) ≡ false) xs → NoDup (push xs y)
NoDup-push [] y n a = (refl, tt)
NoDup-push (x ∷ xs) y n a =
    (ground (arith, any-push (λ z. x == z) xs y, n.0, a.0), NoDup-push xs y n.1 a.1)

-- Where a key has no run, it is none of the keys that have one.
unlisted :
    (key : String) (runs : Runs) (order : List String)
    → lookup key runs ≡ none
    → All (λ k. is_some (lookup k runs) ≡ true) order
    → All (λ k. (k == key) ≡ false) order
unlisted key runs order e h = All-map _ _ (differs key e) order h
  where
    differs :
        (key : String)
        → lookup key runs ≡ none
        → (k : String) → is_some (lookup k runs) ≡ true
        → (k == key) ≡ false
    differs key e k h = elim (Bool-cases (k == key)) [
      | inl b ↦
          absurd
            (ground (arith, subst (λ x. is_some (lookup x runs) ≡ true) ((eq_iff k key).0 b) h, e))
      | inr b ↦ b
    ]

module _ (key : String) (run : TraceRun) (runs : Runs) where
  still_listed :
      (order : List String)
      → All (λ k. is_some (lookup k runs) ≡ true) order
      → All (λ k. is_some (lookup k (insert key run runs)) ≡ true) order
  still_listed order h =
      All-map _ _ (λ k s. ground (arith, s, lookup-insert key k run runs)) order h

  insert_new :
      (order : List String)
      → lookup key runs ≡ none
      → IsOrdered runs order
      → IsOrdered (insert key run runs) (push order key)
  insert_new order e o = (
    insert-IsMap key run runs o.0,
    (
      All-push _ order key (still_listed order o.1.0)
          (ground (arith, lookup-insert key key run runs, eq_iff key key)),
      (
        NoDup-push order key o.1.1.0 (unlisted key runs order e o.1.0),
        ground (arith, length-insert key run runs, length-push order key, e, o.1.1.1),
      ),
    ),
  )

  insert_old :
      (order : List String) (old : TraceRun)
      → lookup key runs ≡ some old
      → IsOrdered runs order
      → IsOrdered (insert key run runs) order
  insert_old order old e o = (
    insert-IsMap key run runs o.0,
    (still_listed order o.1.0, (o.1.1.0, ground (arith, length-insert key run runs, e, o.1.1.1))),
  )

delete_oldest :
    (key : String) (runs : Runs) (order : List String)
    → IsOrdered runs (key ∷ order)
    → IsOrdered (delete key runs) order
delete_oldest key runs order o = (
  delete-IsMap key runs o.0,
  (
    All-map _ _ (λ k both. ground (arith, both, lookup-delete key k runs)) order
        (All-pair _ _ order o.1.0.1 (any_none (λ y. key == y) order o.1.1.0.0)),
    (o.1.1.0.1, ground (arith, length-delete key runs o.0 o.1.0.0, o.1.1.1)),
  ),
)

trim_order_short :
    (limit : ℕ) (order : List String) (runs : Runs) (keys : List (String × String))
    → (eqb limit 0 || not (ltb limit (length order))) ≡ true
    → trim_order limit order runs keys
      ≡ record { max_runs = limit; runs = runs; keys = keys; order = order }
unfolding trim_order
trim_order_short limit [] runs keys short = refl
trim_order_short limit (k ∷ order) runs keys short =
    let kept : (not (eqb limit 0) && ltb limit (suc (length order))) ≡ false =
      ground (arith, short) in
    rw kept refl

lookup-delete_values :
    (run_key scope value : String) (keys : List (String × String))
    → (value == run_key) ≡ false
    → lookup scope keys ≡ some value
    → lookup scope (delete_values run_key keys) ≡ some value
unfolding lookup delete_values
lookup-delete_values run_key scope value [] n e = cc
lookup-delete_values run_key scope value (entry ∷ keys) n e =
    elim (Bool-cases (entry.1 == run_key)) [
      | inl b ↦ rw b (
          lookup-delete_values run_key scope value keys n
            (ground (arith, b, n, e, eq_iff entry.1 run_key, eq_iff value run_key)))
      | inr b ↦ rw b (ground (arith, e, lookup-delete_values run_key scope value keys n))
    ]

abbrev head_differs : String → List String → Bool
head_differs key [] = false
head_differs key (k ∷ order) = not (k == key)

-- The store that the trimming of a list at most one over the limit leaves, in which a run that is
-- not the oldest one is still found.
abbrev IsKept : String → String → TraceRun → MemoryTraceStore → Type 0
IsKept run_key scope run s =
    IsSound s × ((lookup run_key s.runs ≡ some run) × (lookup scope s.keys ≡ some run_key))

module _ (limit : ℕ) (runs : Runs) (keys : List (String × String)) (run_key scope : String)
    (run : TraceRun) where
  trim_order-IsKept :
      (order : List String)
      → IsOrdered runs order
      → (eqb limit 0 || not (ltb (suc limit) (length order))) ≡ true
      → ((eqb limit 0 || not (ltb limit (length order))) || head_differs run_key order) ≡ true
      → lookup run_key runs ≡ some run
      → lookup scope keys ≡ some run_key
      → IsKept run_key scope run (trim_order limit order runs keys)
  unfolding trim_order
  trim_order-IsKept [] o almost apart e f = ((o, ground arith), (e, f))
  trim_order-IsKept (k ∷ order) o almost apart e f =
      elim (Bool-cases (eqb limit 0 || not (ltb limit (suc (length order))))) [
        | inl b ↦
            let kept : (not (eqb limit 0) && ltb limit (suc (length order))) ≡ false =
              ground (arith, b) in
            rw kept ((o, b), (e, f))
        | inr b ↦
            let cut : (not (eqb limit 0) && ltb limit (suc (length order))) ≡ true =
              ground (arith, b) in
            let short : (eqb limit 0 || not (ltb limit (length order))) ≡ true =
              ground (arith, b, almost) in
            let other : (k == run_key) ≡ false = ground (arith, b, apart) in
            rw (cut, trim_order_short limit order (delete k runs) (delete_values k keys) short)
              (
                (delete_oldest k runs order o, short),
                (
                  ground (arith, e, other, lookup-delete k run_key runs),
                  lookup-delete_values k scope run_key keys
                      (ground (arith, other, eq_iff run_key k, eq_iff k run_key)) f,
                ),
              )
      ]

head_differs-push :
    (limit : ℕ) (order : List String) (key : String)
    → (eqb limit 0 || not (ltb limit (length order))) ≡ true
    → All (λ k. (k == key) ≡ false) order
    → ((eqb limit 0 || not (ltb limit (length (push order key))))
        || head_differs key (push order key))
      ≡ true
head_differs-push limit [] key short a = ground arith
head_differs-push limit (k ∷ order) key short a = ground (arith, a.0)

pub record_event-IsKept :
    (now : ℕ) (r : Request) (event : TraceEvent) (scope run_key : String) (s : MemoryTraceStore)
    → IsSound s
    → IsKept run_key scope
        (add_event now event (or_else (lookup run_key s.runs) (new_run r event)))
        (record_event now r event scope run_key s)
unfolding record_event
record_event-IsKept now r event scope run_key s (o, short) =
    elim (Option-cases (lookup run_key s.runs)) [
      | inl e ↦
          let run = add_event now event (new_run r event) in
          rw e (
            trim_order-IsKept s.max_runs (insert run_key run s.runs) (insert scope run_key s.keys)
              run_key scope run (push s.order run_key) (insert_new run_key run s.runs s.order e o)
              (ground (arith, short, length-push s.order run_key))
              (head_differs-push s.max_runs s.order run_key short
                (unlisted run_key s.runs s.order e o.1.0))
              (ground (arith, lookup-insert run_key run_key run s.runs, eq_iff run_key run_key))
              (ground (arith, lookup-insert scope scope run_key s.keys, eq_iff scope scope)))
      | inr (old, e) ↦
          let run = add_event now event old in
          rw e (
            trim_order-IsKept s.max_runs (insert run_key run s.runs) (insert scope run_key s.keys)
              run_key scope run s.order (insert_old run_key run s.runs s.order old e o)
              (ground (arith, short)) (ground (arith, short))
              (ground (arith, lookup-insert run_key run_key run s.runs, eq_iff run_key run_key))
              (ground (arith, lookup-insert scope scope run_key s.keys, eq_iff scope scope)))
    ]
