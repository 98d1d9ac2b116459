-- ===== src/Router/Continuation/Results.antt =====
-- internal/router/toolshandler.go: the results of a round's tool calls.
use auxot.Common.{
  ◌≡◌, sym, ◌∙◌, ap, inl, inr, true, false, Option, none, some, List, [], ◌∷◌, ◌++◌, Text, text_beq,
  text_beq_iff, text_comparable, is_some, Bool-cases, arith, equal_refl,
}
use auxot.Common.Assoc.{
  Assoc, lookup, insert, erase, lookup-insert, lookup-insert_self, insert-insert,
}
use auxot.Common.Int.{ℤ, pos, ◌-ℤ◌, ltb_ℤ, -ℤ_parts}
use auxot.Protocol.{ImagePart}
use auxot.Router.ToolsState.{Tools, Pending, ToolCallResult}
use auxot.Router.Continuation.{record_tool_result, with_result, finish}

-- Two keys that are there may be given new values in either order.
insert_comm :
    {V : Type 0} (k j : Text) (v w : V) (m : Assoc Text V)
    → text_beq k j ≡ false
    → is_some (lookup k m) ≡ true
    → is_some (lookup j m) ≡ true
    → insert k v (insert j w m) ≡ insert j w (insert k v m)
unfolding lookup insert
insert_comm k j v w [] ne ek ej = cc
insert_comm k j v w ((i, x) ∷ m) ne ek ej = ground (
  arith,
  text_beq_iff i k,
  text_beq_iff i j,
  text_beq_iff k j,
  text_beq_iff j k,
  insert_comm k j v w m ne,
)

erase-insert_any :
    {V : Type 0} (k : Text) (v : V) (m : Assoc Text V) → erase k (insert k v m) ≡ erase k m
unfolding insert erase
erase-insert_any k v [] = ground (arith, equal_refl k)
erase-insert_any k v ((i, x) ∷ m) = ground (arith, equal_refl k, erase-insert_any k v m)

-- A result, as the tools worker or the handler reports it.
pub record Report : Type 0 where
  pub tool_call_id : Text
  pub tool_name : Text
  pub result : Option Text
  pub image_parts : List ImagePart
  pub err_msg : Text

abbrev pub report : Text → Report → Tools → Tools
report parent_job_id x h =
    record_tool_result parent_job_id x.tool_call_id x.tool_name x.result x.image_parts x.err_msg h

abbrev result_of_report : Report → ToolCallResult
result_of_report x = record {
  tool_name = x.tool_name;
  result = x.result;
  err_msg = x.err_msg;
  image_parts = x.image_parts;
}

-- A known call of a pending round.
recorded :
    (parent : Text) (x : Report) (h : Tools) (cont : Pending)
    → lookup parent h.pending_conts ≡ some cont
    → is_some (lookup x.tool_call_id cont.results) ≡ true
    → report parent x h ≡ finish parent (with_result x.tool_call_id (result_of_report x) cont) h
unfolding record_tool_result
recorded parent x h cont e known = rw (e, record_tool_result, known)

-- The continuation after a result.
abbrev after : Report → Pending → Pending
after x cont = with_result x.tool_call_id (result_of_report x) cont

-- A result that is not the last one only replaces the continuation.
finish_more :
    (parent : Text) (cont : Pending) (h : Tools)
    → ltb_ℤ (pos 0) cont.remaining ≡ true
    → finish parent cont h ≡ record h { pending_conts = insert parent cont h.pending_conts }
unfolding finish
finish_more parent cont h more = rw (more, finish)

-- It does not matter which continuation was stored before.
finish-insert :
    (parent : Text) (old cont : Pending) (h : Tools)
    → finish parent cont (record h { pending_conts = insert parent old h.pending_conts })
      ≡ finish parent cont h
unfolding finish
finish-insert parent old cont h =
    let over = insert-insert parent old cont h.pending_conts in
    let gone = erase-insert_any parent old h.pending_conts in
    elim (Bool-cases (ltb_ℤ (pos 0) cont.remaining)) [
      | inl more ↦ rw (more, over)
      | inr last ↦ elim (Bool-cases cont.is_direct) [
        | inl direct ↦ rw (last, direct, gone)
        | inr indirect ↦ rw (last, indirect, gone)
      ]
    ]

still_more :
    (remaining : ℤ) → ltb_ℤ (pos 1) remaining ≡ true → ltb_ℤ (pos 0) (remaining -ℤ pos 1) ≡ true
still_more remaining h = ground (arith, -ℤ_parts remaining (pos 1))

known_after :
    (x : Report) (j : Text) (cont : Pending)
    → is_some (lookup j cont.results) ≡ true
    → is_some (lookup j (after x cont).results) ≡ true
unfolding with_result
known_after x j cont known =
    ground (arith, lookup-insert x.tool_call_id j (some (result_of_report x)) cont.results)

report_twice :
    (parent : Text) (x y : Report) (h : Tools) (cont : Pending)
    → lookup parent h.pending_conts ≡ some cont
    → is_some (lookup x.tool_call_id cont.results) ≡ true
    → is_some (lookup y.tool_call_id cont.results) ≡ true
    → ltb_ℤ (pos 1) cont.remaining ≡ true
    → report parent y (report parent x h) ≡ finish parent (after y (after x cont)) h
unfolding with_result
report_twice parent x y h cont e kx ky many =
    let one = after x cont in
    let h1 : Tools = record h { pending_conts = insert parent one h.pending_conts } in
    ap (report parent y)
      (recorded parent x h cont e kx ∙ finish_more parent one h (still_more cont.remaining many))
    ∙ recorded parent y h1 one (lookup-insert_self parent one h.pending_conts)
        (known_after x y.tool_call_id cont ky)
    ∙ finish-insert parent one (after y one) h

after_comm :
    (x y : Report) (cont : Pending)
    → text_beq x.tool_call_id y.tool_call_id ≡ false
    → is_some (lookup x.tool_call_id cont.results) ≡ true
    → is_some (lookup y.tool_call_id cont.results) ≡ true
    → after y (after x cont) ≡ after x (after y cont)
unfolding with_result
after_comm x y cont ne kx ky =
    ap (λ m. record cont { results = m; remaining = cont.remaining -ℤ pos 1 -ℤ pos 1 })
      (sym (
        insert_comm x.tool_call_id y.tool_call_id (some (result_of_report x))
          (some (result_of_report y)) cont.results ne kx ky))

-- Results of two calls of one round may come in either order: after both, the handler's state is the
-- same, with the same next round if they were the last two.
pub record_tool_result_comm :
    (parent : Text) (x y : Report) (h : Tools) (cont : Pending)
    → lookup parent h.pending_conts ≡ some cont
    → text_beq x.tool_call_id y.tool_call_id ≡ false
    → is_some (lookup x.tool_call_id cont.results) ≡ true
    → is_some (lookup y.tool_call_id cont.results) ≡ true
    → ltb_ℤ (pos 1) cont.remaining ≡ true
    → report parent y (report parent x h) ≡ report parent x (report parent y h)
record_tool_result_comm parent x y h cont e ne kx ky many =
    report_twice parent x y h cont e kx ky many
    ∙ ap (λ c. finish parent c h) (after_comm x y cont ne kx ky)
    ∙ sym (report_twice parent y x h cont e ky kx many)

-- A result that arrives twice counts twice: of two calls that are open, one is answered twice, and the
-- next round begins while the other call has no result.
pub record_tool_result_repeated :
    (parent : Text) (x : Report) (other : Text) (h : Tools) (cont : Pending)
    → lookup parent h.pending_conts ≡ some cont
    → cont.remaining ≡ pos 2
    → cont.is_direct ≡ false
    → is_some (lookup x.tool_call_id cont.results) ≡ true
    → text_beq x.tool_call_id other ≡ false
    → lookup other cont.results ≡ some none
    → (c : Pending) × ((report parent x (report parent x h)).rounds ≡ h.rounds ++ c ∷ [])
      × (lookup other c.results ≡ some none)
unfolding finish with_result
record_tool_result_repeated parent x other h cont e two indirect known ne open_call =
    let c = after x (after x cont) in
    let many : ltb_ℤ (pos 1) cont.remaining ≡ true = rw two in
    let none_left : ltb_ℤ (pos 0) c.remaining ≡ false =
      rw two (ground (arith, -ℤ_parts (pos 2) (pos 1), -ℤ_parts (pos 2 -ℤ pos 1) (pos 1))) in
    let twice = report_twice parent x x h cont e known known many in
    (
      c,
      rw (twice, none_left, indirect),
      rw
          (
            lookup-insert x.tool_call_id other (some (result_of_report x)) (after x cont).results,
            ne,
            lookup-insert x.tool_call_id other (some (result_of_report x)) cont.results,
            ne,
          )
          open_call,
    )
