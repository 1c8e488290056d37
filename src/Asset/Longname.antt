-- ===== src/Asset/Longname.antt =====
-- A subasset's long name that passes its checks can be packed.
use counterparty_core.Prelude.{ℕ, ◌≡◌, refl, true, some, [], ◌∷◌, ◌++◌, arith, all}
use counterparty_core.Text.{Text}
use counterparty_core.Exec.{ok}
use counterparty_core.Asset.Names.{is_b26}
use counterparty_core.Asset.Subasset.{
  is_subasset_digit, check_child, validate_subasset_longname, legacy_validate_subasset_parent_name,
  compact_subasset_longname, expand_subasset_longname,
}
use counterparty_core.Asset.Compact.{expand-compact_subasset_longname}

check_child-ok :
    (previous : ℕ) (s : Text) → check_child previous s ≡ ok tt → all is_subasset_digit s ≡ true
unfolding check_child
check_child-ok previous [] h = refl
check_child-ok previous (c ∷ s) h = ground (arith, check_child-ok c s)

letter_digit : (c : ℕ) → is_b26 c ≡ true → is_subasset_digit c ≡ true
unfolding is_b26 is_subasset_digit
letter_digit c h = ground arith

all-letters : (s : Text) → all is_b26 s ≡ true → all is_subasset_digit s ≡ true
all-letters [] h = refl
all-letters (c ∷ s) h = ground (arith, letter_digit c, all-letters s)

all-append_digits :
    (s t : Text)
    → all is_subasset_digit s ≡ true
    → all is_subasset_digit t ≡ true
    → all is_subasset_digit (s ++ t) ≡ true
all-append_digits [] t hs ht = ht
all-append_digits (c ∷ s) t hs ht = ground (arith, all-append_digits s t)

period_digit : is_subasset_digit b'.' ≡ true
unfolding is_subasset_digit
period_digit = refl

-- A subasset long name, of a parent of letters and of a child that both pass their checks, is
-- packed into bytes without a KeyError, and unpacking gives the name back.
pub longname_round_trip :
    (parent child : Text)
    → legacy_validate_subasset_parent_name parent ≡ ok tt
    → validate_subasset_longname (parent ++ b'.' ∷ child) (some child) ≡ ok tt
    → (packed : Text) × (compact_subasset_longname (parent ++ b'.' ∷ child) ≡ some packed)
      × (expand_subasset_longname packed ≡ parent ++ b'.' ∷ child)
unfolding legacy_validate_subasset_parent_name validate_subasset_longname
longname_round_trip parent child hp hc = expand-compact_subasset_longname (parent ++ b'.' ∷ child) (
    all-append_digits parent (b'.' ∷ child) (ground (arith, all-letters parent))
      (ground (arith, check_child-ok b'.' child, period_digit)))
