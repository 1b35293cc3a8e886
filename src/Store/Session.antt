-- ===== src/Store/Session.antt =====
-- web/src/api/token.ts: the token of the browser, and the refusals of the server. The browser's
-- storage may be blocked; the listeners are told by a count of the notices.
pub mod Auth
pub mod Notices
pub mod Modes
use text.Mathlib.Text.{◌==◌}
use tolquane.Base.{
  ℕ, zero, suc, String, ◌<>◌, Bool, true, false, ◌&&◌, ◌||◌, not, Option, none, some, if◌then◌else◌,
}

pub data AuthMode : Type 0 where
  local users token : AuthMode

pub record TokenState : Type 0 where
  pub blocked : Bool
  pub stored : Option String
  pub refused : Bool
  pub sign_in_needed : Bool
  pub mode : Option AuthMode
  pub generation : ℕ
  pub notices : ℕ

abbrev pub start : Bool → Option String → TokenState
start blocked stored = record {
  blocked = blocked;
  stored = stored;
  refused = false;
  sign_in_needed = false;
  mode = none;
  generation = 0;
  notices = 0;
}

abbrev pub notify : TokenState → TokenState
notify s = record s { notices = suc s.notices }

abbrev pub api_token : TokenState → Option String
api_token s = if s.blocked then none else s.stored

abbrev header_of : Option String → Option String
header_of none = none
header_of (some t) = if t == "" then none else some ("Bearer " <> t)

-- The `Authorization` header, if any.
unfoldable pub auth_headers : TokenState → Option String
auth_headers s = header_of (api_token s)

-- `localStorage.setItem`, or `removeItem`; a blocked storage throws, which is caught.
abbrev pub store_token : Option String → TokenState → TokenState
store_token t s = record s { stored = if s.blocked then s.stored else t }

abbrev pub not_empty : Option String → Option String
not_empty none = none
not_empty (some t) = if t == "" then none else some t

unfoldable pub set_api_token : Option String → TokenState → TokenState
set_api_token t s =
    let kept = store_token (not_empty t) s in
    notify (record kept { refused = false; sign_in_needed = false; generation = suc s.generation })

abbrev pub same_mode : Option AuthMode → Option AuthMode → Bool
same_mode none none = true
same_mode (some AuthMode.local) (some AuthMode.local) = true
same_mode (some AuthMode.users) (some AuthMode.users) = true
same_mode (some AuthMode.token) (some AuthMode.token) = true
same_mode _ _ = false

abbrev pub is_users : Option AuthMode → Bool
is_users (some AuthMode.users) = true
is_users _ = false

-- A server that turns out to have users cannot want the token dialog.
unfoldable pub set_server_mode : Option AuthMode → TokenState → TokenState
set_server_mode next s =
    let turns = is_users next && s.refused in
    if same_mode s.mode next
    then s
    else notify (record s {
      mode = next;
      refused = if turns then false else s.refused;
      sign_in_needed = if turns then true else s.sign_in_needed;
    })

-- A request came back 401.
unfoldable pub report_unauthorized : TokenState → TokenState
report_unauthorized s =
    if is_users s.mode
    then if s.sign_in_needed
      then s
      else notify (record (store_token none s) { sign_in_needed = true })
    else if s.refused
    then s
    else notify (record s { refused = true })

unfoldable pub clear_unauthorized : TokenState → TokenState
clear_unauthorized s =
    if not s.refused && not s.sign_in_needed
    then s
    else notify (record s { refused = false; sign_in_needed = false })
