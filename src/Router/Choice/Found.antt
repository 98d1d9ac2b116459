-- ===== src/Router/Choice/Found.antt =====
-- internal/router/toolshandler.go: a tools worker that can do the call is found if there is one.
use auxot.Common.{
  ℕ, zero, suc, ◌%◌, ◌<◌, ◌≡◌, refl, sym, ◌∙◌, ap, inl, inr, Bool, true, false, some, List, [], ◌∷◌,
  keep, Text, text_ltb, length, nat_beq, is_empty, Bool-cases, In, In-cons, here, there, arith,
}
use auxot.Router.ToolsState.{Tools, ToolsConn}
use auxot.Router.Choice.{
  values_of, pick_tools_worker, advertises, insert_by_id, sort_by_id, first, at_index,
  pick_from_eligible, fnv64a,
}

In-insert_by_id : (u v : ToolsConn) (ws : List ToolsConn) → In u (insert_by_id v ws) → In u (v ∷ ws)
unfolding insert_by_id
In-insert_by_id u v [] i = i
In-insert_by_id u v (w ∷ ws) i = elim (Bool-cases (text_ltb w.id v.id)) [
  | inl before ↦
      let j : In u (w ∷ insert_by_id v ws) = rw before at i in
      elim (In-cons j) [
        | inl e ↦ there (here e)
        | inr k ↦ elim (In-cons (In-insert_by_id u v ws k)) [
          | inl e ↦ here e
          | inr l ↦ there (there l)
        ]
      ]
  | inr after ↦ rw after at i
]

In-sort_by_id : (u : ToolsConn) (ws : List ToolsConn) → In u (sort_by_id ws) → In u ws
unfolding sort_by_id
In-sort_by_id u [] i = i
In-sort_by_id u (w ∷ ws) i = elim (In-cons (In-insert_by_id u w (sort_by_id ws) i)) [
  | inl e ↦ here e
  | inr j ↦ there (In-sort_by_id u ws j)
]

length-insert_by_id :
    (v : ToolsConn) (ws : List ToolsConn) → length (insert_by_id v ws) ≡ suc (length ws)
unfolding insert_by_id
length-insert_by_id v [] = refl
length-insert_by_id v (w ∷ ws) = ground (arith, length-insert_by_id v ws)

length-sort_by_id : (ws : List ToolsConn) → length (sort_by_id ws) ≡ length ws
unfolding sort_by_id
length-sort_by_id [] = refl
length-sort_by_id (w ∷ ws) = length-insert_by_id w (sort_by_id ws) ∙ ap suc (length-sort_by_id ws)

at_index-some :
    (ws : List ToolsConn) (i : ℕ)
    → i < length ws
    → (w : ToolsConn) × (at_index ws i ≡ some w) × In w ws
unfolding at_index
at_index-some [] i h = let no : ⊥ = omega arith in absurd no
at_index-some (w ∷ ws) zero h = (w, refl, here refl)
at_index-some (w ∷ ws) (suc i) h =
    let (v, found, inside) = at_index-some ws i (omega arith) in (v, found, there inside)

first-some : (ws : List ToolsConn) → 0 < length ws → (w : ToolsConn) × (first ws ≡ some w) × In w ws
unfolding first
first-some [] h = let no : ⊥ = omega arith in absurd no
first-some (w ∷ ws) h = (w, refl, here refl)

-- Some eligible worker is picked, whatever the thread.
pick_some :
    (ws : List ToolsConn) (thread_id : Text)
    → 0 < length ws
    → (w : ToolsConn) × (pick_from_eligible ws thread_id ≡ some w) × In w ws
unfolding pick_from_eligible
pick_some ws thread_id h =
    let many : nat_beq (length ws) 0 ≡ false = ground arith in
    let long = length-sort_by_id ws in
    elim (Bool-cases (is_empty thread_id)) [
      | inl no_thread ↦
          let (w, found, inside) = first-some (sort_by_id ws) (omega arith) in
          (w, rw (pick_from_eligible, many, no_thread) found, In-sort_by_id w ws inside)
      | inr thread ↦
          let (w, found, inside) =
            at_index-some (sort_by_id ws) (fnv64a thread_id % length ws) (omega arith) in
          (w, rw (pick_from_eligible, many, thread) found, In-sort_by_id w ws inside)
    ]

In-keep :
    (p : ToolsConn → Bool) (w : ToolsConn) (ws : List ToolsConn)
    → In w ws
    → p w ≡ true
    → In w (keep p ws)
In-keep p w [] i h = elim i [ ]
In-keep p w (v ∷ ws) (here e) h = let fits : p v ≡ true = ap p (sym e) ∙ h in rw fits (here e)
In-keep p w (v ∷ ws) (there i) h = elim (Bool-cases (p v)) [
  | inl fits ↦ rw fits (there (In-keep p w ws i h))
  | inr misses ↦ rw misses (In-keep p w ws i h)
]

In-of_keep :
    (p : ToolsConn → Bool) (w : ToolsConn) (ws : List ToolsConn)
    → In w (keep p ws)
    → In w ws × (p w ≡ true)
In-of_keep p w [] i = elim i [ ]
In-of_keep p w (v ∷ ws) i = elim (Bool-cases (p v)) [
  | inl fits ↦
      let j : In w (v ∷ keep p ws) = rw fits at i in
      elim (In-cons j) [
        | inl e ↦ (here e, ap p e ∙ fits)
        | inr k ↦ let (inside, good) = In-of_keep p w ws k in (there inside, good)
      ]
  | inr misses ↦
      let j : In w (keep p ws) = rw misses at i in
      let (inside, good) = In-of_keep p w ws j in (there inside, good)
]

length-of_In : (w : ToolsConn) (ws : List ToolsConn) → In w ws → 0 < length ws
length-of_In w [] i = elim i [ ]
length-of_In w (v ∷ ws) i = omega arith

-- If a connected tools worker advertises the tool, a connected worker that advertises it is picked.
pub pick_tools_worker-some :
    (tool_name thread_id : Text) (h : Tools) (w : ToolsConn)
    → In w (values_of h.tools_workers)
    → advertises tool_name w ≡ true
    → (v : ToolsConn) × (pick_tools_worker tool_name thread_id h ≡ some v)
      × In v (values_of h.tools_workers)
      × (advertises tool_name v ≡ true)
unfolding pick_tools_worker
pick_tools_worker-some tool_name thread_id h w i fits =
    let p = advertises tool_name in
    let ws = values_of h.tools_workers in
    let (v, picked, inside) =
      pick_some (keep p ws) thread_id (length-of_In w (keep p ws) (In-keep p w ws i fits)) in
    let (there', good) = In-of_keep p v ws inside in (v, picked, there', good)
