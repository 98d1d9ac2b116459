-- ===== src/Router/Choice/Pick.antt =====
-- internal/router/toolshandler.go: the choice of a tools worker. Which worker is chosen does not
-- depend on the order in which Go visits the map of workers.
use auxot.Common.{
  suc, ◌≡◌, refl, ◌∙◌, ap, inl, inr, Bool, true, false, not, List, [], ◌∷◌, keep, Text, text_beq,
  text_ltb, length, Bool-cases, arith,
}
use auxot.Router.ToolsState.{Tools, ToolsConn}
use auxot.Router.Choice.{
  values_of, pick_tools_worker, pick_tools_worker_all, covers_all, covers_some, advertises,
  insert_by_id, sort_by_id, pick_from_eligible,
}

text_ltb_flip : (s t : Text) → text_beq s t ≡ false → text_ltb t s ≡ not (text_ltb s t)
text_ltb_flip [] [] h = cc
text_ltb_flip [] (b ∷ t) h = refl
text_ltb_flip (a ∷ s) [] h = refl
text_ltb_flip (a ∷ s) (b ∷ t) h = ground (arith, text_ltb_flip s t)

text_ltb_trans : (s t u : Text) → text_ltb s t ≡ true → text_ltb t u ≡ true → text_ltb s u ≡ true
text_ltb_trans [] [] u h k = cc
text_ltb_trans [] (b ∷ t) [] h k = cc
text_ltb_trans [] (b ∷ t) (c ∷ u) h k = refl
text_ltb_trans (a ∷ s) [] u h k = cc
text_ltb_trans (a ∷ s) (b ∷ t) [] h k = cc
text_ltb_trans (a ∷ s) (b ∷ t) (c ∷ u) h k = ground (arith, text_ltb_trans s t u)

-- Two workers with different IDs may be inserted in either order.
insert_by_id_comm :
    (v w : ToolsConn) (ws : List ToolsConn)
    → text_beq v.id w.id ≡ false
    → insert_by_id v (insert_by_id w ws) ≡ insert_by_id w (insert_by_id v ws)
unfolding insert_by_id
insert_by_id_comm v w [] h = ground (arith, text_ltb_flip v.id w.id h)
insert_by_id_comm v w (x ∷ ws) h = ground (
  arith,
  text_ltb_flip v.id w.id h,
  text_ltb_trans x.id w.id v.id,
  text_ltb_trans x.id v.id w.id,
  insert_by_id_comm v w ws h,
)

-- Two orders in which Go may visit the workers, which have different IDs.
pub data Reordered : List ToolsConn → List ToolsConn → Type 0 where
  same : {ws : List ToolsConn} → Reordered ws ws
  behind : (w : ToolsConn) {us vs : List ToolsConn} → Reordered us vs → Reordered (w ∷ us) (w ∷ vs)
  swap :
      (v w : ToolsConn) {ws : List ToolsConn}
      → text_beq v.id w.id ≡ false
      → Reordered (v ∷ w ∷ ws) (w ∷ v ∷ ws)
  chain : {us vs ws : List ToolsConn} → Reordered us vs → Reordered vs ws → Reordered us ws

keep-Reordered :
    {us vs : List ToolsConn} (p : ToolsConn → Bool)
    → Reordered us vs
    → Reordered (keep p us) (keep p vs)
keep-Reordered p same = same
keep-Reordered p (behind w d) = elim (Bool-cases (p w)) [
  | inl fits ↦ rw fits (behind w (keep-Reordered p d))
  | inr misses ↦ rw misses (keep-Reordered p d)
]
keep-Reordered p (swap v w ne) = elim (Bool-cases (p v)) [
  | inl fits ↦ elim (Bool-cases (p w)) [
    | inl fits' ↦ rw (fits, fits') (swap v w ne)
    | inr misses' ↦ rw (fits, misses') same
  ]
  | inr misses ↦ elim (Bool-cases (p w)) [
    | inl fits' ↦ rw (misses, fits') same
    | inr misses' ↦ rw (misses, misses') same
  ]
]
keep-Reordered p (chain d e) = chain (keep-Reordered p d) (keep-Reordered p e)

length-Reordered : {us vs : List ToolsConn} → Reordered us vs → length us ≡ length vs
length-Reordered same = refl
length-Reordered (behind w d) = ap suc (length-Reordered d)
length-Reordered (swap v w ne) = refl
length-Reordered (chain d e) = length-Reordered d ∙ length-Reordered e

sort_by_id-Reordered : {us vs : List ToolsConn} → Reordered us vs → sort_by_id us ≡ sort_by_id vs
unfolding sort_by_id
sort_by_id-Reordered same = refl
sort_by_id-Reordered (behind w d) = ap (insert_by_id w) (sort_by_id-Reordered d)
sort_by_id-Reordered (swap v w {ws} ne) = insert_by_id_comm v w (sort_by_id ws) ne
sort_by_id-Reordered (chain d e) = sort_by_id-Reordered d ∙ sort_by_id-Reordered e

pick-Reordered :
    {us vs : List ToolsConn} (thread_id : Text)
    → Reordered us vs
    → pick_from_eligible us thread_id ≡ pick_from_eligible vs thread_id
unfolding pick_from_eligible
pick-Reordered thread_id d = rw (length-Reordered d, sort_by_id-Reordered d)

-- The worker that a round of tool calls goes to depends on the workers that are connected, the names
-- of the tools and the thread, and not on the order in which the map of workers is visited.
pub pick_tools_worker_all-Reordered :
    (tool_names : List Text) (thread_id : Text) (g h : Tools)
    → Reordered (values_of g.tools_workers) (values_of h.tools_workers)
    → pick_tools_worker_all tool_names thread_id g ≡ pick_tools_worker_all tool_names thread_id h
unfolding pick_tools_worker_all pick_tools_worker
pick_tools_worker_all-Reordered [] thread_id g h d =
    pick-Reordered thread_id (keep-Reordered (advertises []) d)
pick_tools_worker_all-Reordered (name ∷ []) thread_id g h d =
    pick-Reordered thread_id (keep-Reordered (advertises name) d)
pick_tools_worker_all-Reordered (name ∷ next ∷ names) thread_id g h d =
    let all = keep-Reordered (covers_all (name ∷ next ∷ names)) d in
    let any = keep-Reordered (covers_some (name ∷ next ∷ names)) d in
    rw (
      length-Reordered all,
      length-Reordered any,
      pick-Reordered thread_id all,
      pick-Reordered thread_id any,
    )
