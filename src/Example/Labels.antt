-- ===== src/Example/Labels.antt =====
-- The texts of examples/steam-library-example/main.go that depend on what they are about, and the
-- place of the session file.
use go_steam.Base.{
  ℕ, not, Option, none, some, [], ◌∷◌, ◌++◌, List, Bytes, codes, map, drop, take, bytes_equal,
  length, ◌==◌, if◌then◌else◌,
}
use go_steam.Api.Params.{AllowedConfirmation}
use go_steam.Identity.Pick.{guard_device_confirmation, guard_email_confirmation}
use go_steam.Example.Guard.{confirmation_allowed}

abbrev label_prefix : Bytes
label_prefix = codes "k_EAuthSessionGuardType_"

-- `guardTypeLabel`, where `name` is what `String` gives for a guard type.
guard_type_label : (ℕ → Bytes) → ℕ → Bytes
guard_type_label name t =
    if bytes_equal (take (length label_prefix) (name t)) label_prefix
    then drop (length label_prefix) (name t)
    else name t

-- `strings.Join(parts, ", ")`
join : List Bytes → Bytes
join [] = []
join (part ∷ []) = part
join (part ∷ next ∷ rest) = part ++ (codes ", " ++ join (next ∷ rest))

join_guard_types : (ℕ → Bytes) → List AllowedConfirmation → Bytes
join_guard_types name [] = codes "<none>"
join_guard_types name (c ∷ rest) =
    join (map (λ (d : AllowedConfirmation). guard_type_label name d.confirmation_type) (c ∷ rest))

external_confirmation_prompt : List AllowedConfirmation → Bytes
external_confirmation_prompt allowed =
    if confirmation_allowed allowed guard_device_confirmation
    then codes "Steam Guard: please approve the login in your Steam Mobile app..."
    else if confirmation_allowed allowed guard_email_confirmation
    then codes "Steam Guard: please click the approval link in the email sent to you..."
    else codes "Steam Guard: waiting for external confirmation..."

-- `defaultSessionPath`, with `filepath.Join` and the two directories, which may be unknown.
session_path_at_home : (List Bytes → Bytes) → Option Bytes → Bytes
session_path_at_home join_path none = codes "session.json"
session_path_at_home join_path (some home) =
    join_path (home ∷ codes ".go-steam-example-session.json" ∷ [])

default_session_path : (List Bytes → Bytes) → Option Bytes → Option Bytes → Bytes
default_session_path join_path none home = session_path_at_home join_path home
default_session_path join_path (some dir) home =
    if not (length dir == 0)
    then join_path (dir ∷ codes "go-steam-example" ∷ codes "session.json" ∷ [])
    else session_path_at_home join_path home

-- The tag for the response of a URL, which has a status unless the request failed.
tag_of : Option ℕ → Bytes
tag_of none = codes " [INVALID]"
tag_of (some status) = if status == 404 then codes " [INVALID]" else []

tagged : {W : Type 0} → Option ℕ × W → Bytes × W
tagged (status, w) = (tag_of status, w)

-- `urlStatus`; `get_url` makes the request and sends it.
url_status : {W : Type 0} → (Bytes → W → Option ℕ × W) → Bytes → W → Bytes × W
url_status get_url raw w = if length raw == 0 then ([], w) else tagged (get_url raw w)
