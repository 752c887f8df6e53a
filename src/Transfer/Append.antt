-- ===== src/Transfer/Append.antt =====
-- `transfer_append`, all its answers: it never stores outside of the array.
use ciexpert_usbdev.Base.{
  ℕ, ◌+◌, ◌≤◌, ◌<◌, ◌≡◌, refl, ◌∙◌, Bool, true, false, some, List, ◌++◌, arith, ◌⊎◌, inl, inr,
  length, take, leb, Bool-cases, overwrite, length-overwrite, take-overwrite_end,
}
use ciexpert_usbdev.Usb.{max_data}
use ciexpert_usbdev.Transfer.{Transfer, IsValid, transfer_append}

-- On a valid descriptor `transfer_append` fails no assertion. If the bytes fit it answers true and
-- the content grows by exactly these bytes; if not, it answers false and changes nothing. Either
-- way the descriptor stays valid.
pub transfer_append_lem :
    (t : Transfer) (dp : List ℕ)
    → IsValid t
    → (ok : Bool) × (t' : Transfer) × (transfer_append t dp ≡ some (ok, t'))
      × IsValid t'
      × (((ok ≡ true)
            × (t.num_bytes + length dp ≤ max_data)
            × (take t'.num_bytes t'.data_bytes ≡ take t.num_bytes t.data_bytes ++ dp))
          ⊎ ((ok ≡ false) × (max_data < t.num_bytes + length dp) × (t' ≡ t)))
unfolding transfer_append
transfer_append_lem t dp v = elim (Bool-cases (leb (t.num_bytes + length dp) max_data)) [
  | inl fits ↦ (
    true,
    record t {
      data_bytes = overwrite t.data_bytes t.num_bytes dp;
      num_bytes = t.num_bytes + length dp;
    },
    ground (arith, v.sized),
    record {
      sized = length-overwrite t.data_bytes t.num_bytes dp ∙ v.sized;
      within = ground arith;
    },
    inl (
      refl,
      ground arith,
      take-overwrite_end t.data_bytes t.num_bytes dp (ground (arith, v.sized)),
    ),
  )
  | inr full ↦ (false, t, ground (arith, v.within), v, inr (refl, ground arith, refl))
]
