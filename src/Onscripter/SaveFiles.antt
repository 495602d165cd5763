-- ===== src/Onscripter/SaveFiles.antt =====
-- bridge/onscripter_runtime/src/onscripter_save_storage.cpp, IsOnsSaveFileName: which files of a
-- directory are ONScripter saves, by the file name of the path.
use aether_kiri.Prelude.{
  ℕ, ◌+◌, ◌-◌, Bool, true, false, not, ◌&&◌, ◌||◌, [], ◌∷◌, Text, text, eq_text, leb, if◌then◌else◌,
  length, take, drop,
}

abbrev pub is_fixed_name : Text → Bool
is_fixed_name name =
    eq_text name (text "envdata")
    || (eq_text name (text "gloval.sav")
        || (eq_text name (text "kidoku.dat")
            || (eq_text name (text "NScrllog.dat")
                || (eq_text name (text "NScrflog.dat")
                    || (eq_text name (text "stdout.txt") || eq_text name (text "stderr.txt"))))))

-- std::isdigit in the C locale
abbrev pub is_digit : ℕ → Bool
is_digit c = leb b'0' c && leb c b'9'

-- The loop over the bytes from an index up to four before the end, as those that are left of them.
unfoldable pub all_digits : Text → Bool
all_digits [] = true
all_digits (c ∷ rest) = let others = all_digits rest in if not (is_digit c) then false else others

unfoldable pub is_ons_save_file_name : Text → Bool
unfolding all_digits
is_ons_save_file_name name =
    if is_fixed_name name
    then true
    else if (leb (length name) (4 + 4) || not (eq_text (take 4 name) (text "save")))
        || not (eq_text (drop (length name - 4) name) (text ".dat"))
    then false
    else all_digits (take (length name - 4 - 4) (drop 4 name))
