-- ===== src/Store/Session/Auth.antt =====
-- web/src/store/auth.ts: who is signed in, and the calls that change it. What the server answers is
-- given, and comes at any time after its request.
use text.Mathlib.Text.{◌==◌}
use tolquane.Base.{ℕ, String, Bool, true, false, ◌&&◌, Option, none, some, if◌then◌else◌}
use tolquane.Store.Session.{
  AuthMode, local, users, token, TokenState, start, set_api_token, set_server_mode,
  report_unauthorized, clear_unauthorized, is_users,
}

pub data Role : Type 0 where
  admin member : Role

-- The fields that the page reads.
pub record User : Type 0 where
  pub id : ℕ
  pub name : String
  pub role : Role
  pub must_change_password : Bool

pub data AuthStatus : Type 0 where
  loading ready unreachable : AuthStatus

pub record AuthState : Type 0 where
  pub status : AuthStatus
  pub mode : Option AuthMode
  pub user : Option User
  pub can_setup : Bool
  pub note : Option String
  pub error : Option String
  pub tokens : TokenState

abbrev pub initial : Bool → Option String → AuthState
initial blocked stored = record {
  status = loading;
  mode = none;
  user = none;
  can_setup = false;
  note = none;
  error = none;
  tokens = start blocked stored;
}

-- The server's mode, or null when the answer did not carry one we know.
unfoldable pub mode_of : String → Option AuthMode
mode_of text =
    if text == "local"
    then some local
    else if text == "users"
    then some users
    else if text == "token"
    then some token
    else none

-- `MeResult`
pub record Me : Type 0 where
  pub mode : String
  pub user : Option User
  pub can_setup : Bool
  pub note : Option String

abbrev shown_note : Option String → Option String
shown_note none = none
shown_note (some s) = if s == "" then none else some s

-- `load`, when `me` answers.
unfoldable pub load_answered : Me → AuthState → AuthState
unfolding mode_of
load_answered me s = record s {
  status = ready;
  mode = mode_of me.mode;
  user = me.user;
  can_setup = me.can_setup;
  note = shown_note me.note;
  error = none;
  tokens = set_server_mode (mode_of me.mode) s.tokens;
}

-- `load`, when `me` throws.
unfoldable pub load_failed : Bool → String → AuthState → AuthState
load_failed offline message s = record s {
  status = if offline then unreachable else ready;
  mode = none;
  user = none;
  can_setup = false;
  error = some message;
  tokens = set_server_mode none s.tokens;
}

pub record LoginResult : Type 0 where
  pub token : String
  pub user : User

-- `accept`
unfoldable pub accept : LoginResult → AuthState → AuthState
accept r s = record s {
  status = ready;
  mode = some users;
  user = some r.user;
  can_setup = false;
  error = none;
  tokens = set_api_token (some r.token) (set_server_mode (some users) s.tokens);
}

-- `signOut`, whether or not the server answers; it then asks `me` again.
unfoldable pub sign_out : AuthState → AuthState
sign_out s = record s { user = none; can_setup = false; tokens = set_api_token none s.tokens }

abbrev is_admin_role : Option User → Bool
is_admin_role none = false
is_admin_role (some u) = elim u.role [ admin ↦ true | member ↦ false ]

unfoldable pub is_admin : AuthState → Bool
is_admin s = is_admin_role s.user

abbrev must_choose : Option User → Bool
must_choose none = true
must_choose (some u) = u.must_change_password

unfoldable pub sign_in_required : AuthState → Bool
sign_in_required s = is_users s.mode && must_choose s.user

-- What happens to the session: `signIn` and `createFirstAdmin` end in `accepted`, and a 401 on any
-- request, the token dialog and closing a prompt go to the token alone.
pub data Event : Type 0 where
  answered : Me → Event
  failed : Bool → String → Event
  accepted : LoginResult → Event
  signed_out unauthorized closed : Event
  token_given : Option String → Event

unfoldable pub step : Event → AuthState → AuthState
unfolding load_answered load_failed accept sign_out
step (answered me) s = load_answered me s
step (failed offline message) s = load_failed offline message s
step (accepted r) s = accept r s
step signed_out s = sign_out s
step unauthorized s = record s { tokens = report_unauthorized s.tokens }
step closed s = record s { tokens = clear_unauthorized s.tokens }
step (token_given t) s = record s { tokens = set_api_token t s.tokens }

pub data Reached : AuthState → Type 0 where
  opened : (blocked : Bool) (stored : Option String) → Reached (initial blocked stored)
  stepped : {s : AuthState} (e : Event) → Reached s → Reached (step e s)
