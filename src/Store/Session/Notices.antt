-- ===== src/Store/Session/Notices.antt =====
-- web/src/api/token.ts: the listeners hear of every change.
use tolquane.Base.{◌≤◌, ◌&&◌, not, Option, none, some, ◌≡◌, refl, if_cases, arith}
use tolquane.Store.Session.{
  AuthMode, TokenState, set_api_token, set_server_mode, report_unauthorized, clear_unauthorized,
  is_users, same_mode,
}
use tolquane.Store.Session.Auth.{
  AuthState, Event, answered, failed, accepted, signed_out, unauthorized, closed, token_given, step,
  load_answered, load_failed, accept, sign_out, mode_of,
}

-- Either nothing changed, or there was a notice.
abbrev Told : TokenState → TokenState → Type 0
Told s t = t.notices ≡ s.notices → t ≡ s

set_server_mode-Told : (next : Option AuthMode) (s : TokenState) → Told s (set_server_mode next s)
unfolding set_server_mode
set_server_mode-Told next s =
    if_cases (λ (t : TokenState). Told s t) (same_mode s.mode next) (λ e h. refl)
      (λ e h. absurd (omega arith))

report-Told : (s : TokenState) → Told s (report_unauthorized s)
unfolding report_unauthorized
report-Told s =
    if_cases (λ (t : TokenState). Told s t) (is_users s.mode)
      (λ e.
        if_cases (λ (t : TokenState). Told s t) s.sign_in_needed (λ f h. refl)
          (λ f h. absurd (omega arith)))
      (λ e.
        if_cases (λ (t : TokenState). Told s t) s.refused (λ f h. refl)
          (λ f h. absurd (omega arith)))

clear-Told : (s : TokenState) → Told s (clear_unauthorized s)
unfolding clear_unauthorized
clear-Told s =
    if_cases (λ (t : TokenState). Told s t) (not s.refused && not s.sign_in_needed) (λ e h. refl)
      (λ e h. absurd (omega arith))

set_server_mode-notices :
    (next : Option AuthMode) (s : TokenState) → s.notices ≤ (set_server_mode next s).notices
unfolding set_server_mode
set_server_mode-notices next s =
    if_cases (λ (t : TokenState). s.notices ≤ t.notices) (same_mode s.mode next) (λ e. omega arith)
      (λ e. omega arith)

-- Whatever happens to the session, the token's state changes only with a notice to the listeners: when
-- none was given, the token, the refusals, the mode and the generation are what they were.
pub step-notices :
    (e : Event) (s : AuthState)
    → (step e s).tokens.notices ≡ s.tokens.notices
    → (step e s).tokens ≡ s.tokens
unfolding step load_answered load_failed accept sign_out set_api_token
step-notices (answered me) s h = set_server_mode-Told (mode_of me.mode) s.tokens h
step-notices (failed offline message) s h = set_server_mode-Told none s.tokens h
step-notices (accepted r) s h =
    absurd (omega (arith, h, set_server_mode-notices (some AuthMode.users) s.tokens))
step-notices signed_out s h = absurd (omega arith)
step-notices unauthorized s h = report-Told s.tokens h
step-notices closed s h = clear-Told s.tokens h
step-notices (token_given t) s h = absurd (omega arith)
