-- ===== src/Log/Lattice.antt =====
-- lib/logchecker/analyzer/LogLattice.h: the depth of transactions, or whether a field is logged. The
-- base classes TxValue and LogValue are two fields; `tx` is an int, its 32 bits as a number.
pub mod Meet
use nvmordering.Base.{
  ℕ, Bool, ◌&&◌, ◌+◌, ◌%◌, ltb, ◌==◌, if◌then◌else◌, Result, ok, err, guard, assert_failed,
  fatal_error, ◌>>=◌, ◌>>◌,
}

pub data Log : Type 0 where
  logged unseen : Log

pub data LatticeType : Type 0 where
  tx_value_type log_value_type none_type : LatticeType

abbrev pub log_no : Log → ℕ
log_no logged = 0
log_no unseen = 1

abbrev pub type_no : LatticeType → ℕ
type_no tx_value_type = 0
type_no log_value_type = 1
type_no none_type = 2

pub record LogLattice : Type 0 where
  pub tx : ℕ
  pub log : Log
  pub lattice_type : LatticeType

-- `++`, `--` and `<` of an int by its 32 bits.
abbrev pub inc : ℕ → ℕ
inc n = (n + 1) % 4294967296

abbrev pub dec : ℕ → ℕ
dec n = (n + 4294967295) % 4294967296

abbrev pub signed_lt : ℕ → ℕ → Bool
signed_lt a b = ltb ((a + 2147483648) % 4294967296) ((b + 2147483648) % 4294967296)

-- LogLattice(LatticeType)
unfoldable pub new_lattice : LatticeType → Result LogLattice
new_lattice type = do
  guard (ltb (type_no type) (type_no none_type)) assert_failed
  ok (record { tx = 0; log = unseen; lattice_type = type })

-- LogLattice()
unfoldable pub default_lattice : LogLattice
default_lattice = record { tx = 0; log = unseen; lattice_type = none_type }

unfoldable pub get_init_tx : Result LogLattice
unfolding new_lattice
get_init_tx = new_lattice tx_value_type

unfoldable pub get_init_var : Result LogLattice
unfolding new_lattice
get_init_var = new_lattice log_value_type

unfoldable pub get_begin_tx : LogLattice → LogLattice
get_begin_tx val = record val { tx = inc val.tx }

unfoldable pub get_end_tx : LogLattice → LogLattice
get_end_tx val = record val { tx = dec val.tx }

unfoldable pub get_logged : LogLattice → LogLattice
get_logged val = record val { log = logged }

unfoldable pub meet_value : LogLattice → LogLattice → LogLattice
meet_value self val =
    let type = type_no val.lattice_type in
    record self {
      tx = if type == type_no tx_value_type && signed_lt val.tx self.tx then val.tx else self.tx;
      log =
          if type == type_no log_value_type && ltb (log_no val.log) (log_no self.log)
          then val.log
          else self.log;
    }

-- `meet` is a static function of one argument
unfoldable pub meet : LogLattice → Result LogLattice
unfolding new_lattice meet_value
meet value = do new_value ← new_lattice value.lattice_type; ok (meet_value new_value value)

unfoldable pub is_logged : LogLattice → Bool
is_logged v = log_no v.log == log_no logged

unfoldable pub is_in_tx : LogLattice → Bool
is_in_tx v = signed_lt 0 v.tx

-- `operator==`
unfoldable pub eq_lattice : LogLattice → LogLattice → Result Bool
eq_lattice v x = elim v.lattice_type [
  | tx_value_type ↦ ok (v.tx == x.tx)
  | log_value_type ↦ ok (log_no v.log == log_no x.log)
  | none_type ↦ err fatal_error
]
