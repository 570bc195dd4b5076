-- ===== src/Push/Junos.antt =====
-- A change of Junos is made final exactly where it was read back.
use valsec.Prelude.{
  String, true, false, not, ◌||◌, Option, none, some, List, [], ◌∷◌, ◌++◌, keep, map, split_lines,
  is_blank, strip, lower, member, ◌is◌, eq_iff, Result, ok, err, ◌≡◌, refl, sym, ap, ◌∙◌, inl, inr,
  Bool-cases, Option-cases, arith,
}
use valsec.Errors.{PushFailure}
use valsec.Remediation.Execution.{PushResult}
use valsec.Push.Commands.{accepted_commands-IsPushable}
use valsec.Push.{
  juniper_wrappers, unless_wrapper, mutation_lines, accepted_commands, Remote, Outcome, send_all,
  result_of, committed, confirm, reverify, transact, connected, push_commands, push_accepted,
  apply_remediation,
}

-- Nothing of the list is the command `commit`.
NoCommit : List String → Type 0
NoCommit sent = member "commit" sent ≡ false

-- Without a result no commit was sent; with one it was sent last, once, after the configuration was
-- read.
pub Final : Remote → Outcome → Type 0
Final remote (sent, err e) = member "commit" sent ≡ false
Final remote (sent, ok result) =
    (earlier : List String) × (sent ≡ earlier ++ "commit" ∷ [])
    × (member "commit" earlier ≡ false)
    × (remote.fetch earlier ≡ ok result.post_change_snapshot)

member-append :
    (c : String) (xs ys : List String) → member c (xs ++ ys) ≡ (member c xs || member c ys)
member-append c [] ys = refl
member-append c (x ∷ xs) ys = ground (arith, member-append c xs ys)

NoCommit-append : (xs ys : List String) → NoCommit xs → NoCommit ys → NoCommit (xs ++ ys)
unfolding NoCommit
NoCommit-append xs ys hx hy = ground (arith, member-append "commit" xs ys, hx, hy)

NoCommit-split :
    (c : String) (cs : List String) → NoCommit (c ∷ cs) → NoCommit (c ∷ []) × NoCommit cs
unfolding NoCommit
NoCommit-split c cs h = (ground (arith, h), ground (arith, h))

not_wrapper :
    (c : String) → not (member (lower c) juniper_wrappers) ≡ true → (c is "commit") ≡ false
unfolding lower
not_wrapper c h = elim (Bool-cases (c is "commit")) [
  | inr other ↦ other
  | inl same ↦
      let at : c ≡ "commit" = (eq_iff _ _).0 same in
      let kept : false ≡ true = sym (ap (λ x. not (member (lower x) juniper_wrappers)) at) ∙ h in cc
]

unless_wrapper-NoCommit : (lines : List String) → NoCommit (unless_wrapper juniper_wrappers lines)
unfolding NoCommit
unless_wrapper-NoCommit [] = refl
unless_wrapper-NoCommit (c ∷ cs) = elim (Bool-cases (not (member (lower c) juniper_wrappers))) [
  | inl kept ↦ rw (kept, not_wrapper c kept) (unless_wrapper-NoCommit cs)
  | inr dropped ↦ rw dropped (unless_wrapper-NoCommit cs)
]

mutation_lines-NoCommit :
    (vendor text : String) {commands : List String}
    → lower (strip vendor) ≡ "juniper"
    → mutation_lines vendor text ≡ ok commands
    → NoCommit commands
unfolding mutation_lines
mutation_lines-NoCommit vendor text {commands} key e =
    let lines = keep (λ line. not (is_blank line)) (map strip (split_lines text)) in
    let made : mutation_lines vendor text ≡ ok (unless_wrapper juniper_wrappers lines) =
      rw key refl in
    let at : unless_wrapper juniper_wrappers lines ≡ commands = cc in
    rw (← at) (unless_wrapper-NoCommit lines)

accepted-NoCommit :
    (vendor text : String) {commands : List String}
    → lower (strip vendor) ≡ "juniper"
    → accepted_commands vendor text ≡ ok commands
    → NoCommit commands
accepted-NoCommit vendor text key e =
    mutation_lines-NoCommit vendor text key (accepted_commands-IsPushable vendor text e).1

frame-NoCommit :
    (commands : List String)
    → NoCommit commands
    → NoCommit ("configure" ∷ commands ++ "commit confirmed 5" ∷ [])
unfolding NoCommit
frame-NoCommit commands h =
    ground (arith, member-append "commit" commands ("commit confirmed 5" ∷ []), h)

nothing_sent : NoCommit []
unfolding NoCommit
nothing_sent = refl

module _ (remote : Remote) where
  -- The commands that were sent are those before and a part of the others.
  send_all-NoCommit :
      (sent commands : List String)
      → NoCommit sent
      → NoCommit commands
      → NoCommit (send_all remote sent commands).0
  unfolding send_all
  send_all-NoCommit sent [] hs hc = hs
  send_all-NoCommit sent (c ∷ cs) hs hc = elim (Option-cases (remote.broken sent)) [
    | inl e ↦
        let (hd, tl) = NoCommit-split c cs hc in
        rw (e, send_all)
          (send_all-NoCommit (sent ++ c ∷ []) cs (NoCommit-append sent (c ∷ []) hs hd) tl)
    | inr (raised, e) ↦ rw (e, send_all) hs
  ]

  committed-Final :
      (sent : List String) (result : PushResult)
      → NoCommit sent
      → remote.fetch sent ≡ ok result.post_change_snapshot
      → Final remote (committed remote result (send_all remote sent ("commit" ∷ [])))
  unfolding send_all Final NoCommit
  committed-Final sent result none_yet read = elim (Option-cases (remote.broken sent)) [
    | inl e ↦
        let made : send_all remote sent ("commit" ∷ []) ≡ (sent ++ "commit" ∷ [], none) =
          rw (e, send_all) refl in
        rw made (sent, refl, none_yet, read)
    | inr (raised, e) ↦
        let made : send_all remote sent ("commit" ∷ []) ≡ (sent, some raised) =
          rw (e, send_all) refl in
        rw made none_yet
  ]

  confirm-Final :
      (before : String) (sent : List String) (answer : Result PushFailure String)
      → NoCommit sent
      → remote.fetch sent ≡ answer
      → Final remote (confirm remote before sent answer)
  unfolding confirm Final NoCommit
  confirm-Final before sent (err e) none_yet read = none_yet
  confirm-Final before sent (ok after) none_yet read =
      committed-Final sent (result_of remote before after) none_yet read

  reverify-Final :
      (before : String) (answer : List String × Option PushFailure)
      → NoCommit answer.0
      → Final remote (reverify remote before answer)
  unfolding reverify Final NoCommit
  reverify-Final before (sent, some e) none_yet = none_yet
  reverify-Final before (sent, none) none_yet =
      confirm-Final before sent (remote.fetch sent) none_yet refl

  transact-Final :
      (commands : List String) (before : String)
      → NoCommit commands
      → Final remote (transact remote "juniper" commands before)
  unfolding transact
  transact-Final commands before h =
      let frame = "configure" ∷ commands ++ "commit confirmed 5" ∷ [] in
      reverify-Final before (send_all remote [] frame)
        (send_all-NoCommit [] frame nothing_sent (frame-NoCommit commands h))

  connected-Final :
      (commands : List String) (before : String) (answer : Result PushFailure (Unit {0}))
      → NoCommit commands
      → Final remote (connected remote "juniper" commands before answer)
  unfolding connected Final
  connected-Final commands before (err e) h = refl
  connected-Final commands before (ok u) h = transact-Final commands before h

  push_commands-Final :
      (commands : List String) (answer : Result PushFailure String)
      → NoCommit commands
      → Final remote (push_commands remote "juniper" commands answer)
  unfolding push_commands Final
  push_commands-Final commands (err e) h = refl
  push_commands-Final commands (ok before) h = connected-Final commands before remote.connect h

  push_accepted-Final :
      (vendor text : String) (answer : Result PushFailure (List String))
      → lower (strip vendor) ≡ "juniper"
      → accepted_commands vendor text ≡ answer
      → Final remote (push_accepted remote "juniper" answer)
  unfolding push_accepted Final
  push_accepted-Final vendor text (err e) key accepted = refl
  push_accepted-Final vendor text (ok commands) key accepted =
      push_commands-Final commands (remote.fetch []) (accepted-NoCommit vendor text key accepted)

  -- For a Junos device, whatever the text, the device, its connection and its channel do: a push
  -- that returns a result sent `commit` last and once, after it read the configuration back with
  -- success, and the result holds that configuration; a push that raises never sent it.
  pub apply_remediation-Final :
      (vendor text : String)
      → lower (strip vendor) ≡ "juniper"
      → Final remote (apply_remediation remote vendor text)
  unfolding apply_remediation
  apply_remediation-Final vendor text key =
      rw key (push_accepted-Final vendor text (accepted_commands vendor text) key refl)
