-- ===== src/Storage/Keys.antt =====
-- pkg/storage/store.go, `sequenceKey`: the key of a sequence number, padded with zeros to 20 places.
-- Keys are texts of ASCII characters; the order of their bytes is the order of the texts.
pub mod Sorted
use Prim.Native.String.{len, ◌++◌ as str_append}
use dtvn.Prelude.{ℕ, zero, suc, ◌-◌, String, if◌then◌else◌, leb}
use dtvn.Prelude.Int.{ℤ}
use dtvn.Prelude.Decimal.{format_int}

abbrev pub width : ℕ
width = 20

-- `n` zeros in front of `s`: the loop that fills the key, and the copy into its end
unfoldable pub zeros : ℕ → String → String
zeros zero s = s
zeros (suc n) s = str_append "0" (zeros n s)

unfoldable pub sequence_key : ℤ → String
unfolding zeros format_int
sequence_key seq =
    let s = format_int seq in if leb width (len s) then s else zeros (width - len s) s
