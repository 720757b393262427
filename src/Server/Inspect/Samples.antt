-- ===== src/Server/Inspect/Samples.antt =====
-- Commands that pass the allowlist, and commands that do not.
use log_sump.Base.{◌≡◌, refl, true}
use log_sump.Base.Text.{Text, codes, strip, lstrip, rstrip, text_discrete, contains, ascii_only}
use log_sump.Base.Errors.{ok}
use log_sump.Server.Inspect.{allowed_commands, check_command_allowed}
use log_sump.Server.Inspect.Allowed.{check_command_allowed-canonical}

abbrev get_text : Text
get_text = codes "GET"

accepted_test : check_command_allowed ascii_only (codes " get ") ≡ ok get_text
unfolding check_command_allowed allowed_commands strip lstrip rstrip text_discrete
accepted_test = refl

check_command_allowed-canonical_example :
    (contains allowed_commands get_text ≡ true)
    × (strip get_text ≡ get_text)
    × (check_command_allowed ascii_only get_text ≡ ok get_text)
check_command_allowed-canonical_example =
    check_command_allowed-canonical ascii_only (codes " get ") get_text accepted_test
