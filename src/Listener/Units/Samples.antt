-- ===== src/Listener/Units/Samples.antt =====
-- 3 KiB, over numbers that read one digit.
use log_sump.Base.{◌≡◌, refl, true, some, [], ◌++◌}
use log_sump.Base.Int.{pos}
use log_sump.Base.Text.{codes, ascii_only, strip, lstrip, rstrip, text_discrete}
use log_sump.Base.Words.{partition_at}
use log_sump.Base.Dict.{lookup}
use log_sump.Base.Errors.{ok, err, value_error}
use log_sump.Listener.Units.{parse_bytes, match_number, match_unit, parse_pair_bytes}
use log_sump.Listener.Samples.{numbers}
use log_sump.Listener.Units.Sizes.{kilo, multiple, a_unit, parse_bytes-sized}

size_test : parse_bytes ascii_only numbers (codes " 3 KiB") ≡ ok (some (pos 3072))
unfolding parse_bytes match_number match_unit strip lstrip rstrip lookup text_discrete
size_test = refl

pair_test :
    parse_pair_bytes ascii_only numbers (codes "3KB / 2B") ≡ ok (some (pos 3000), some (pos 2))
unfolding parse_pair_bytes partition_at parse_bytes match_number match_unit strip lstrip rstrip
    lookup text_discrete
pair_test = refl

dotted_test : parse_bytes ascii_only numbers (codes "1.2.3MB") ≡ err value_error
unfolding parse_bytes match_number match_unit strip lstrip rstrip lookup text_discrete
dotted_test = refl

parse_bytes-sized_example :
    parse_bytes ascii_only numbers (codes "3" ++ (codes " " ++ codes "KiB")) ≡ ok (some (pos 3072))
parse_bytes-sized_example =
    parse_bytes-sized ascii_only numbers b'3' [] (codes " ") (codes "KiB") (refl, tt) (refl, tt)
      refl refl (a_unit (multiple true kilo) refl)
