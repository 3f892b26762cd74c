-- ===== src/StatusUpdater/Alerts.antt =====
-- status.go: which results send a notification.
use health_go.StatusUpdater.Incident.{update-check_name}
use health_go.Base.{
  String, Bool, true, false, sym, not, ◌&&◌, ◌||◌, Option, none, some, List, [], ◌∷◌, ℕ, suc, ◌≤◌,
  ◌≡◌, ◌≢◌, refl, ap, arith, ◌∙◌, eq_refl, Bool-cases, inl, inr, eq_iff, if◌then◌else◌,
}
use health_go.Base.Int.{pos, max_int}
use health_go.Base.Lists.{All, length}
use health_go.Types.{
  Status, passing, initializing, unknown, status_text, eq_status, CheckNotification, Error,
}
use health_go.Notifications.{new_notification_sender, send}
use health_go.Actions.{ActionRunner}
use health_go.StatusUpdater.{
  StatusUpdater, World, Env, update, status_message, new_status_updater_internal,
}
use health_go.StatusUpdater.History.{
  History, replay, reaches, shown, decided, Follows, replay-Follows, streak, streak-le, healthy,
  failing,
}
use health_go.StatusUpdater.Notices.{
  alerted, notices, Alert, Tells, sends_one, announced, announced-one,
}

-- the results that a notification was sent for, the latest first, after the announcement of a new check
unfoldable pub alerts : History → StatusUpdater → List Alert
unfolding alerted
alerts [] s = (initializing, status_text initializing) ∷ []
alerts ((r, w) ∷ older) s =
    let rest = alerts older s in
    if alerted r.env r.status r.error r.quiet (replay older s) w
    then (r.status, status_message r.status r.error) ∷ rest
    else rest

pub eq_status-eq : (a b : Status) → eq_status a b ≡ true → a ≡ b
eq_status-eq passing b h = ground arith
eq_status-eq (unknown s) (unknown t) h = ap unknown ((eq_iff s t).0 h)
eq_status-eq _ b h = ground arith

module _ (to_pass to_warn to_fail : ℕ) where
  alerted-lem :
      (env : Env) (status : Status) (error : Error) (w : World) (older : History)
      (s : StatusUpdater)
      → suc (length older) ≤ max_int
      → Follows to_pass to_warn to_fail older s
      → alerted env status error false s w ≡ (
          reaches to_pass to_warn to_fail status older
          && (not (eq_status (shown to_pass to_warn to_fail older) status)
              || not (decided to_pass to_warn to_fail older)))
  unfolding alerted update new_notification_sender send streak
  alerted-lem env passing error w older s fits f =
      ground (arith, streak-le healthy older, streak-le failing older)
  alerted-lem env _ error w older s fits f =
      ground (arith, streak-le healthy older, streak-le failing older)

abbrev pub head? : List Alert → Option Status
head? [] = none
head? (x ∷ xs) = some x.0

-- no status stands twice in a row
abbrev pub NoRepeat : List Alert → Type 0
NoRepeat [] = Unit
NoRepeat (x ∷ xs) = (head? xs ≢ some x.0) × NoRepeat xs

eq_status_refl : (a : Status) → eq_status a a ≡ true
eq_status_refl (unknown s) = eq_refl s
eq_status_refl passing = refl
eq_status_refl _ = refl

some-inj : {a b : Status} → some a ≡ some b → a ≡ b
some-inj e = cc

-- one more result, with the old and the new status; no result that reaches its threshold is initializing
extend_alerts :
    (reach known : Bool) (old new : Status) (message : String) (rest : List Alert)
    → (reach ≡ true → new ≢ initializing)
    → head? rest ≡ some (if known then old else initializing)
    → NoRepeat rest
    → let l =
        if reach && (not (eq_status old new) || not known) then (new, message) ∷ rest else rest in
      (head? l ≡ some (if reach || known then (if reach then new else old) else initializing))
      × NoRepeat l
extend_alerts false known old new message rest later h n = (h, n)
extend_alerts true false old new message rest later h n =
    let apart = later refl in
    elim (Bool-cases (eq_status old new)) [
      | inl same ↦ rw same (refl, (λ e. apart (sym (some-inj (sym h ∙ e))), n))
      | inr other ↦ rw other (refl, (λ e. apart (sym (some-inj (sym h ∙ e))), n))
    ]
extend_alerts true true old new message rest later h n = elim (Bool-cases (eq_status old new)) [
  | inl same ↦ rw same (rw (eq_status-eq old new same) at h, n)
  | inr other ↦ rw other (refl, (λ e. cc (eq_status_refl old), n))
]

reaches_result :
    (to_pass to_warn to_fail : ℕ) (status : Status) (h : History)
    → reaches to_pass to_warn to_fail status h ≡ true
    → status ≢ initializing
reaches_result to_pass to_warn to_fail initializing h reached = cc
reaches_result to_pass to_warn to_fail _ h reached = λ e. cc

module _ (to_pass to_warn to_fail : ℕ) (actions : ActionRunner) (notifiers : List String)
    (tracked : Bool) where
  abbrev start : StatusUpdater
  start =
      new_status_updater_internal (pos to_pass) (pos to_warn) (pos to_fail) actions notifiers
        tracked

  replay-name : (h : History) → (replay h start).actions.check_name ≡ actions.check_name
  unfolding new_status_updater_internal
  replay-name [] = refl
  replay-name ((r, w) ∷ older) =
      update-check_name r r.status (replay older start) w ∙ replay-name older

  alerts-shown :
      (h : History)
      → length h ≤ max_int
      → All (λ x. x.0.quiet ≡ false) h
      → (head? (alerts h start)
          ≡ some (
              if decided to_pass to_warn to_fail h
              then shown to_pass to_warn to_fail h
              else initializing))
        × NoRepeat (alerts h start)
  unfolding alerts shown decided
  alerts-shown [] fits loud = (refl, ((λ e. cc), tt))
  alerts-shown ((r, w) ∷ older) fits loud =
      let (last, distinct) = alerts-shown older (omega arith) loud.1 in
      let follows =
        replay-Follows to_pass to_warn to_fail older actions notifiers tracked (omega arith) in
      let seen =
        ap (λ q. alerted r.env r.status r.error q (replay older start) w) loud.0
        ∙ alerted-lem to_pass to_warn to_fail r.env r.status r.error w older (replay older start)
            fits follows in
      rw seen (
        extend_alerts (reaches to_pass to_warn to_fail r.status older)
          (decided to_pass to_warn to_fail older) (shown to_pass to_warn to_fail older) r.status
          (status_message r.status r.error) (alerts older start)
          (reaches_result to_pass to_warn to_fail r.status older) last distinct)

  module _ (env : Env) (w₀ : World) where
    abbrev first : List CheckNotification
    first = announced env (pos to_pass) (pos to_warn) (pos to_fail) actions notifiers tracked w₀

    notices-Tells :
        (h : History) → Tells actions.check_name (notices first h start) (alerts h start)
    unfolding notices alerts alerted
    notices-Tells [] =
        let (n, one, about) =
          announced-one env (pos to_pass) (pos to_warn) (pos to_fail) actions notifiers tracked
            w₀ in
        rw one (about, tt)
    notices-Tells ((r, w) ∷ older) =
        elim (sends_one r.env r.status r.error r.quiet (replay older start) w) [
          | inl silent ↦ rw silent (notices-Tells older)
          | inr loud ↦
              let (n, one, about) = loud in
              rw one (rw (replay-name older) at about, notices-Tells older)
        ]

    -- A new check announces itself as initializing, and from then on its notifications follow its status
    -- exactly: each one bears the name of the check, the status as its tag and the message about it; the last is
    -- about the status that the check shows, once a result has reached its threshold, and is the
    -- announcement before; and no status is notified twice in a row. The results, at most 2^63 - 1 of
    -- them, all allow a notification.
    pub alerts-follow_status :
        (h : History)
        → length h ≤ max_int
        → All (λ x. x.0.quiet ≡ false) h
        → Tells actions.check_name
            (notices
              (announced env (pos to_pass) (pos to_warn) (pos to_fail) actions notifiers tracked w₀)
              h
              start)
            (alerts h start)
          × (head? (alerts h start)
              ≡ some (
                  if decided to_pass to_warn to_fail h
                  then (replay h start).check.status
                  else initializing))
          × NoRepeat (alerts h start)
    alerts-follow_status h fits loud =
        let (last, distinct) = alerts-shown h fits loud in
        let follows = replay-Follows to_pass to_warn to_fail h actions notifiers tracked fits in
        (notices-Tells h, rw follows.status last, distinct)
