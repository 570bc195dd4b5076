-- ===== src/Push/Safety.antt =====
-- What a push may send to a device.
use valsec.Prelude.{
  String, true, false, Option, none, some, List, [], ◌∷◌, ◌++◌, strip, lower, ◌is◌, eq_iff, Result,
  ok, err, All, All-append, ◌≡◌, refl, ◌⊎◌, inl, inr, Bool-cases, Option-cases, Result-cases,
}
use valsec.Errors.{PushFailure}
use valsec.Push.{
  generic_reload, accepted_commands, Remote, send_all, conclude_read, reread, transact, connected,
  push_commands, push_accepted, apply_remediation,
}
use valsec.Push.Commands.{
  is_permitted, is_pushable, Permitted, juniper-Permitted, mutation_lines-Permitted,
  uci_ending-Permitted, Permitted-append, cisco_framed, accepted_commands-IsPushable,
}

module _ (remote : Remote) where
  send_all-All :
      (P : String → Type 0) (sent commands : List String)
      → All P sent
      → All P commands
      → All P (send_all remote sent commands).0
  unfolding send_all
  send_all-All P sent [] hs hc = hs
  send_all-All P sent (c ∷ cs) hs (h, hc) = elim (Option-cases (remote.broken sent)) [
    | inl e ↦
        rw (e, All) (send_all-All P (sent ++ c ∷ []) cs (All-append P sent (c ∷ []) hs (h, tt)) hc)
    | inr (raised, e) ↦ rw (e, All) hs
  ]

  conclude_read-sent :
      (before : String) (sent : List String) (answer : Result PushFailure String)
      → (conclude_read remote before sent answer).0 ≡ sent
  conclude_read-sent before sent (ok after) = refl
  conclude_read-sent before sent (err e) = refl

  reread-sent :
      (before : String) (answer : List String × Option PushFailure)
      → (reread remote before answer).0 ≡ answer.0
  reread-sent before (sent, some e) = refl
  reread-sent before (sent, none) = conclude_read-sent before sent (remote.fetch sent)

module _ (remote : Remote) where
  cisco_transact :
      (commands : List String) (before : String)
      → Permitted "cisco" commands
      → Permitted "cisco" (transact remote "cisco" commands before).0
  unfolding transact Permitted
  cisco_transact commands before h =
      let frame = "configure terminal" ∷ commands ++ "end" ∷ [] in
      rw (reread-sent remote before (send_all remote [] frame))
        (send_all-All remote _ [] frame tt (cisco_framed commands h))

  send_all-Permitted :
      (key : String) (commands : List String)
      → Permitted key commands
      → Permitted key (send_all remote [] commands).0
  unfolding Permitted
  send_all-Permitted key commands h = send_all-All remote _ [] commands tt h

  uci_transact :
      (key : String) (commands : List String) (before : String)
      → (key is "cisco") ≡ false
      → (key is "juniper") ≡ false
      → Permitted key commands
      → Permitted key (transact remote key commands before).0
  unfolding transact
  uci_transact key commands before cisco juniper h =
      let ending = "uci commit" ∷ generic_reload commands in
      rw (cisco, juniper, reread-sent remote before (send_all remote [] (commands ++ ending)))
        (send_all-Permitted key (commands ++ ending) (
          Permitted-append key commands ending h (uci_ending-Permitted key commands cisco juniper)))

  transact-Permitted :
      (key : String) (commands : List String) (before : String)
      → Permitted key commands
      → Permitted key (transact remote key commands before).0
  transact-Permitted key commands before h = elim (Bool-cases (key is "cisco")) [
    | inl cisco ↦
        let at : key ≡ "cisco" = (eq_iff _ _).0 cisco in
        rw at (cisco_transact commands before (rw (← at) h))
    | inr other ↦ elim (Bool-cases (key is "juniper")) [
      | inl juniper ↦
          let at : key ≡ "juniper" = (eq_iff _ _).0 juniper in rw at (juniper-Permitted _)
      | inr uci ↦ uci_transact key commands before other uci h
    ]
  ]

  connected-Permitted :
      (key : String) (commands : List String) (before : String)
      (answer : Result PushFailure (Unit {0}))
      → Permitted key commands
      → Permitted key (connected remote key commands before answer).0
  unfolding connected Permitted
  connected-Permitted key commands before (err e) h = tt
  connected-Permitted key commands before (ok u) h = transact-Permitted key commands before h

  push_commands-Permitted :
      (key : String) (commands : List String) (answer : Result PushFailure String)
      → Permitted key commands
      → Permitted key (push_commands remote key commands answer).0
  unfolding push_commands Permitted
  push_commands-Permitted key commands (err e) h = tt
  push_commands-Permitted key commands (ok before) h =
      connected-Permitted key commands before remote.connect h

  -- A push of any text, to any device, sends nothing, or the text is not for FortiOS and is not a
  -- risky change of a vendor but Cisco and Juniper. A command that it sends to Cisco IOS is
  -- neither `write memory` nor `copy running-config startup-config`; one that it sends to any
  -- vendor but Cisco and Juniper matches the pattern of UCI mutations or is the commit or a
  -- reload.
  pub apply_remediation-permitted :
      (vendor text : String)
      → let sent = (apply_remediation remote vendor text).0 in
        (sent ≡ [])
        ⊎ ((is_pushable vendor text ≡ true)
            × All (λ c. is_permitted (lower (strip vendor)) c ≡ true) sent)
  unfolding apply_remediation push_accepted Permitted
  apply_remediation-permitted vendor text = elim (Result-cases (accepted_commands vendor text)) [
    | inl (e, refused) ↦ inl (rw refused refl)
    | inr (commands, accepted) ↦
        let (pushable, made) = accepted_commands-IsPushable vendor text accepted in
        let allowed = mutation_lines-Permitted vendor text made in
        inr (
          pushable,
          rw accepted
              (push_commands-Permitted (lower (strip vendor)) commands (remote.fetch []) allowed),
        )
  ]
