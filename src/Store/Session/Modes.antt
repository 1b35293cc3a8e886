-- ===== src/Store/Session/Modes.antt =====
-- web/src/store/auth.ts and web/src/api/token.ts: the two modules agree on the kind of the server.
use tolquane.Base.{
  Bool, true, false, not, ◌&&◌, Option, none, some, ◌≡◌, refl, sym, ap, ◌∙◌, if◌then◌else◌,
  if_cases,
}
use tolquane.Store.Session.{
  AuthMode, local, users, token, TokenState, set_api_token, set_server_mode, report_unauthorized,
  clear_unauthorized, is_users, same_mode,
}
use tolquane.Store.Session.Auth.{
  AuthState, Event, answered, failed, accepted, signed_out, unauthorized, closed, token_given, step,
  load_answered, load_failed, accept, sign_out, Reached, opened, stepped, mode_of,
}

-- A server with users does not want the token dialog.
abbrev pub wants_dialog : TokenState → Bool
wants_dialog s = is_users s.mode && s.refused

same_mode_lem : (a b : Option AuthMode) → same_mode a b ≡ true → a ≡ b
same_mode_lem none none h = refl
same_mode_lem none (some b) h = absurd (cc)
same_mode_lem (some local) none h = absurd (cc)
same_mode_lem (some users) none h = absurd (cc)
same_mode_lem (some token) none h = absurd (cc)
same_mode_lem (some local) (some local) h = refl
same_mode_lem (some users) (some users) h = refl
same_mode_lem (some token) (some token) h = refl
same_mode_lem (some local) (some users) h = absurd (cc)
same_mode_lem (some local) (some token) h = absurd (cc)
same_mode_lem (some users) (some local) h = absurd (cc)
same_mode_lem (some users) (some token) h = absurd (cc)
same_mode_lem (some token) (some local) h = absurd (cc)
same_mode_lem (some token) (some users) h = absurd (cc)

set_server_mode-mode :
    (next : Option AuthMode) (s : TokenState) → (set_server_mode next s).mode ≡ next
unfolding set_server_mode
set_server_mode-mode next s =
    if_cases (λ (t : TokenState). t.mode ≡ next) (same_mode s.mode next) (same_mode_lem s.mode next)
      (λ e. refl)

and_flip : (a b : Bool) → a && (if a && b then false else b) ≡ false
and_flip false b = refl
and_flip true true = refl
and_flip true false = refl

set_server_mode-dialog :
    (next : Option AuthMode) (s : TokenState)
    → wants_dialog s ≡ false
    → wants_dialog (set_server_mode next s) ≡ false
unfolding set_server_mode
set_server_mode-dialog next s h =
    if_cases (λ (t : TokenState). wants_dialog t ≡ false) (same_mode s.mode next) (λ e. h)
      (λ e. and_flip (is_users next) s.refused)

and_false : (a : Bool) → a && false ≡ false
and_false true = refl
and_false false = refl

report-dialog :
    (s : TokenState) → wants_dialog s ≡ false → wants_dialog (report_unauthorized s) ≡ false
unfolding report_unauthorized
report-dialog s h =
    if_cases (λ (t : TokenState). wants_dialog t ≡ false) (is_users s.mode)
      (λ e.
        if_cases (λ (t : TokenState). wants_dialog t ≡ false) s.sign_in_needed (λ f. h) (λ f. h))
      (λ e.
        if_cases (λ (t : TokenState). wants_dialog t ≡ false) s.refused (λ f. h)
          (λ f. ap (λ b. b && true) e))

clear-dialog :
    (s : TokenState) → wants_dialog s ≡ false → wants_dialog (clear_unauthorized s) ≡ false
unfolding clear_unauthorized
clear-dialog s h =
    if_cases (λ (t : TokenState). wants_dialog t ≡ false) (not s.refused && not s.sign_in_needed)
      (λ e. h) (λ e. and_false (is_users s.mode))

report-mode : (s : TokenState) → (report_unauthorized s).mode ≡ s.mode
unfolding report_unauthorized
report-mode s =
    if_cases (λ (t : TokenState). t.mode ≡ s.mode) (is_users s.mode)
      (λ e. if_cases (λ (t : TokenState). t.mode ≡ s.mode) s.sign_in_needed (λ f. refl) (λ f. refl))
      (λ e. if_cases (λ (t : TokenState). t.mode ≡ s.mode) s.refused (λ f. refl) (λ f. refl))

clear-mode : (s : TokenState) → (clear_unauthorized s).mode ≡ s.mode
unfolding clear_unauthorized
clear-mode s =
    if_cases (λ (t : TokenState). t.mode ≡ s.mode) (not s.refused && not s.sign_in_needed)
      (λ e. refl) (λ e. refl)

-- The mode of the page is the one that the requests know, and the token dialog is not wanted on a
-- server with users.
abbrev pub Agrees : AuthState → Type 0
Agrees s = (s.mode ≡ s.tokens.mode) × (wants_dialog s.tokens ≡ false)

step-Agrees : (e : Event) (s : AuthState) → Agrees s → Agrees (step e s)
unfolding step load_answered load_failed accept sign_out set_api_token
step-Agrees (answered me) s (h, k) = (
  sym (set_server_mode-mode (mode_of me.mode) s.tokens),
  set_server_mode-dialog (mode_of me.mode) s.tokens k,
)
step-Agrees (failed offline message) s (h, k) =
    (sym (set_server_mode-mode none s.tokens), set_server_mode-dialog none s.tokens k)
step-Agrees (accepted r) s (h, k) = (
  sym (set_server_mode-mode (some users) s.tokens),
  and_false (is_users ((set_server_mode (some users) s.tokens).mode)),
)
step-Agrees signed_out s (h, k) = (h, and_false (is_users s.tokens.mode))
step-Agrees unauthorized s (h, k) = (h ∙ sym (report-mode s.tokens), report-dialog s.tokens k)
step-Agrees closed s (h, k) = (h ∙ sym (clear-mode s.tokens), clear-dialog s.tokens k)
step-Agrees (token_given t) s (h, k) = (h, and_false (is_users s.tokens.mode))

-- In every state that the session reaches, whatever the server answers and in whatever order, the mode
-- that the page shows is the one by which a refused request is answered, and on a server with users
-- the token dialog is not wanted.
pub Reached-Agrees : (s : AuthState) → Reached s → Agrees s
Reached-Agrees s d = go d
  where
    go : {s : AuthState} → Reached s → Agrees s
    go (opened blocked stored) = (refl, refl)
    go (stepped {s} e d) = step-Agrees e s (go d)
