-- ===== src/Log/Lattice/Meet.antt =====
-- What `meet` of LogLattice.h does.
use nvmordering.Base.{false, ◌≡◌, ◌<◌, refl, ok, arith}
use nvmordering.Log.Lattice.{LogLattice, unseen, tx_value_type, meet, is_in_tx}

-- `meet` takes a value of the transactions that is not negative as an `int`, so also one inside of
-- them, to one outside of them.
pub meet-is_in_tx :
    (v : LogLattice)
    → v.tx < 2147483648
    → v.lattice_type ≡ tx_value_type
    → (out : LogLattice) × (meet v ≡ ok out) × (is_in_tx out ≡ false)
unfolding meet is_in_tx
meet-is_in_tx v small t = (record v { tx = 0; log = unseen }, ground arith, refl)
