-- ===== src/Scopes/Rows.antt =====
-- The rows of the two lists: `ProbePort` and `ProbeProcess` of crates/tepegoz-proto/src/lib.rs, with
-- `matches_filter` and the keys of crates/tepegoz-tui/src/app.rs.
use tepegoz.Prelude.{
  ℕ, ◌≡◌, ◌↔◌, Bool, true, false, Option, none, some, List, arith, ◌==◌, ◌&&◌, ◌||◌, is_empty,
}
use tepegoz.Text.{to_string}
use tepegoz.Text.Same.{same_text, same_text_iff, contains_text}
use tepegoz.Scopes.{RowOps}

-- `i64`, compared for equality only.
pub data ℤ : Type 0 where
  pos negsuc : ℕ → ℤ

pub same_int : ℤ → ℤ → Bool
same_int (pos m) (pos n) = m == n
same_int (negsuc m) (negsuc n) = m == n
same_int (pos m) (negsuc n) = false
same_int (negsuc m) (pos n) = false

pub record ProbePort : Type 0 where
  pub local_ip : List ℕ
  pub local_port : ℕ
  pub protocol : List ℕ
  pub pid : ℕ
  pub process_name : List ℕ
  pub container_id : Option (List ℕ)
  pub partial : Bool

-- `cpu_percent`, an `f32` that only the renderer reads, is left out.
pub record ProbeProcess : Type 0 where
  pub pid : ℕ
  pub parent_pid : ℕ
  pub start_time_unix_secs : ℤ
  pub command : List ℕ
  pub mem_bytes : ℕ
  pub partial : Bool

pub record PortKey : Type 0 where
  pub protocol : List ℕ
  pub local_port : ℕ
  pub pid : ℕ

pub record ProcessKey : Type 0 where
  pub pid : ℕ
  pub start_time_unix_secs : ℤ

unfoldable pub port_key_of : ProbePort → PortKey
port_key_of p = record { protocol = p.protocol; local_port = p.local_port; pid = p.pid }

unfoldable pub process_key_of : ProbeProcess → ProcessKey
process_key_of p = record { pid = p.pid; start_time_unix_secs = p.start_time_unix_secs }

unfoldable pub same_port_key : PortKey → PortKey → Bool
same_port_key k l =
    same_text k.protocol l.protocol && ((k.local_port == l.local_port) && (k.pid == l.pid))

unfoldable pub same_process_key : ProcessKey → ProcessKey → Bool
unfolding same_int
same_process_key k l = (k.pid == l.pid) && same_int k.start_time_unix_secs l.start_time_unix_secs

unfoldable pub port_matches : (List ℕ → List ℕ) → List ℕ → ProbePort → Bool
port_matches to_lowercase filter p =
    let q = to_lowercase filter in
    is_empty filter
    || (contains_text (to_lowercase p.process_name) q
        || (contains_text (to_lowercase p.local_ip) q
            || (contains_text (to_string p.local_port) q || elim p.container_id [
              | some id ↦ contains_text (to_lowercase id) q
              | none ↦ false
            ])))

unfoldable pub process_matches : (List ℕ → List ℕ) → List ℕ → ProbeProcess → Bool
process_matches to_lowercase filter p =
    let q = to_lowercase filter in
    is_empty filter
    || (contains_text (to_lowercase p.command) q || contains_text (to_string p.pid) q)

same_int_iff : (m n : ℤ) → (same_int m n ≡ true) ↔ (m ≡ n)
unfolding same_int
same_int_iff (pos m) (pos n) = ground arith
same_int_iff (negsuc m) (negsuc n) = ground arith
same_int_iff (pos m) (negsuc n) = ground arith
same_int_iff (negsuc m) (pos n) = ground arith

pub same_port_key_iff : (k l : PortKey) → (same_port_key k l ≡ true) ↔ (k ≡ l)
unfolding same_port_key
same_port_key_iff k l = ground (arith, same_text_iff k.protocol l.protocol)

pub same_process_key_iff : (k l : ProcessKey) → (same_process_key k l ≡ true) ↔ (k ≡ l)
unfolding same_process_key
same_process_key_iff k l =
    ground (arith, same_int_iff k.start_time_unix_secs l.start_time_unix_secs)

abbrev pub port_rows : (List ℕ → List ℕ) → RowOps ProbePort PortKey
port_rows to_lowercase = record {
  matches = port_matches to_lowercase;
  key_of = port_key_of;
  same_key = same_port_key;
  same_key_iff = same_port_key_iff;
}

abbrev pub process_rows : (List ℕ → List ℕ) → RowOps ProbeProcess ProcessKey
process_rows to_lowercase = record {
  matches = process_matches to_lowercase;
  key_of = process_key_of;
  same_key = same_process_key;
  same_key_iff = same_process_key_iff;
}
