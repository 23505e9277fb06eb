-- ===== src/Partners/Lists.antt =====
-- The lists among the settings of transfers.service.ts, as they are written and read.
use kufi_e_wallet_with_hyper.Prelude.{String, List, ◌∷◌, All, ◌≡◌, refl}
use kufi_e_wallet_with_hyper.Prelude.Text.Split.{join}
use kufi_e_wallet_with_hyper.Prelude.Text.Pieces.{
  IsItem, no_space-join, is_empty-join, trim_lem, trimmed_pieces-join,
}
use kufi_e_wallet_with_hyper.Partners.Settings.{parse_string_list}

-- A list of items without spaces and commas, written with commas between them, is read back as it
-- was, whatever the default is.
pub parse_string_list-join :
    (p : String) (ps fallback : List String)
    → All IsItem (p ∷ ps)
    → parse_string_list (join "," (p ∷ ps)) fallback ≡ p ∷ ps
unfolding parse_string_list
parse_string_list-join p ps fallback h =
    rw
      (
        trim_lem (join "," (p ∷ ps)) (no_space-join (p ∷ ps) h),
        is_empty-join p ps h.0,
        trimmed_pieces-join p ps h,
      )
      refl
