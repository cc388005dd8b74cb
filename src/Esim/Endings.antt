-- ===== src/Esim/Endings.antt =====
-- Theorems about the end of an operation on an eSIM: `refreshEsimOperationFor` over many polls, and the
-- steps of `afterEsimOperation`.
use openwrt_apn_autoconfig.Prelude.{
  leb, ◌&&◌, not, Bool-cases, ◌≡◌, ◌≢◌, ◌⊎◌, ◌≤◌, ◌↔◌, refl, inl, inr, true, false, none, some,
  List, [], ◌∷◌, String, arith, ℕ, suc, ◌+◌, All, Option, lookup, insert, lookup-insert,
  lookup-remove,
}
use openwrt_apn_autoconfig.Json.{Value, get, is_true}
use openwrt_apn_autoconfig.Wrapper.{Answer, resolved, rejected}
use openwrt_apn_autoconfig.Subjects.{Subject}
use openwrt_apn_autoconfig.Esim.{
  succeeded, partial, Pending, EsimPage, refresh_esim_operation_for, follow_operation,
}
use openwrt_apn_autoconfig.Esim.Settling.{after_wait, read_card, terminal_of, next_step}
use text.Mathlib.TextEquality.{eq_iff}

-- A card is read after an operation exactly when the operation asked for it and is not the plan of a removal,
-- when it succeeded or changed part of what it should, and when its endpoint came back, which is then the one
-- that is read.
pub after_wait-read_card_iff :
    (subjects : List Subject) (modem_id : String) (p : Pending) (action e : Value)
    (endpoint : Option Value) (s : EsimPage)
    → ((after_wait subjects modem_id p action endpoint s).1 ≡ read_card e) ↔ (
        (p.action ≢ "delete-plan")
        × (p.follow ≡ true)
        × ((terminal_of action ≡ succeeded) ⊎ (terminal_of action ≡ partial))
        × (endpoint ≡ some e))
unfolding after_wait next_step
after_wait-read_card_iff subjects modem_id p action e endpoint s =
    ground (arith, eq_iff p.action "delete-plan")

-- A list of answers about one modem, in the order of the polls.
unfoldable pub run_esim : String → List Answer → EsimPage → EsimPage
run_esim modem_id [] s = s
run_esim modem_id (a ∷ answers) s =
    run_esim modem_id answers (refresh_esim_operation_for modem_id a s).0

stays_ended :
    (modem_id : String) (a : Answer) (s : EsimPage)
    → lookup modem_id s.pending ≡ none
    → lookup modem_id (refresh_esim_operation_for modem_id a s).0.pending ≡ none
unfolding refresh_esim_operation_for
stays_ended modem_id (rejected m) s h = h
stays_ended modem_id (resolved v) s h = rw h h

run_ended :
    (modem_id : String) (answers : List Answer) (s : EsimPage)
    → lookup modem_id s.pending ≡ none
    → lookup modem_id (run_esim modem_id answers s).pending ≡ none
unfolding run_esim
run_ended modem_id [] s h = h
run_ended modem_id (a ∷ answers) s h =
    run_ended modem_id answers (refresh_esim_operation_for modem_id a s).0
      (stays_ended modem_id a s h)

-- An answer that is not busy ends what is waited for, or counts one more.
follow_idle :
    (modem_id : String) (v : Value) (p : Pending) (s : EsimPage)
    → is_true (get v "busy") ≡ false
    → let t = (follow_operation modem_id v (some p) s).0 in
      (lookup modem_id t.pending ≡ none)
      ⊎ ((q : Pending) × (lookup modem_id t.pending ≡ some q)
          × (q.waited ≡ p.waited + 1)
          × (p.waited + 1 ≤ 4))
unfolding follow_operation
follow_idle modem_id v p s h = elim (Bool-cases (not p.started && not (leb 5 (p.waited + 1)))) [
  | inl counts ↦
      let q : Pending = record p { waited = p.waited + 1 } in
      let found = lookup-insert modem_id modem_id q s.pending in
      inr (q, ground (arith, found, eq_iff modem_id modem_id), refl, ground arith)
  | inr ends ↦
      inl (ground (arith, eq_iff modem_id modem_id, lookup-remove modem_id modem_id s.pending))
]

step_idle :
    (modem_id : String) (v : Value) (p : Pending) (s : EsimPage)
    → lookup modem_id s.pending ≡ some p
    → is_true (get v "busy") ≡ false
    → let t = (refresh_esim_operation_for modem_id (resolved v) s).0 in
      (lookup modem_id t.pending ≡ none)
      ⊎ ((q : Pending) × (lookup modem_id t.pending ≡ some q)
          × (q.waited ≡ p.waited + 1)
          × (p.waited + 1 ≤ 4))
unfolding refresh_esim_operation_for
step_idle modem_id v p s e h =
    rw e (follow_idle modem_id v p (record s { actions = insert modem_id v s.actions }) h)

-- Every answer is a document, and none says that the operation still runs.
abbrev pub IsOver : Answer → Type 0
IsOver (resolved v) = is_true (get v "busy") ≡ false
IsOver (rejected _) = Unit

abbrev pub answered : List Answer → ℕ
answered [] = 0
answered (rejected _ ∷ answers) = answered answers
answered (resolved _ ∷ answers) = suc (answered answers)

-- For a modem whose operation is waited for and was counted idle at most four times, when five polls about it
-- were answered, counting those before, and none of them saw it run, its operation is waited for no more;
-- polls that fail in between do not matter.
pub run_esim_settles :
    (modem_id : String) (answers : List Answer) (p : Pending) (s : EsimPage)
    → lookup modem_id s.pending ≡ some p
    → p.waited ≤ 4
    → All IsOver answers
    → 5 ≤ answered answers + p.waited
    → lookup modem_id (run_esim modem_id answers s).pending ≡ none
unfolding run_esim refresh_esim_operation_for
run_esim_settles modem_id [] p s e few h n = absurd (omega arith)
run_esim_settles modem_id (rejected m ∷ answers) p s e few (_, h) n =
    run_esim_settles modem_id answers p (refresh_esim_operation_for modem_id (rejected m) s).0 e few
      h n
run_esim_settles modem_id (resolved v ∷ answers) p s e few (over, h) n =
    let t = refresh_esim_operation_for modem_id (resolved v) s in
    elim (step_idle modem_id v p s e over) [
      | inl done ↦ run_ended modem_id answers t.0 done
      | inr (q, found, one, some_left) ↦
          run_esim_settles modem_id answers q t.0 found (omega arith) h (omega arith)
    ]
