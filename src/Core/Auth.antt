-- ===== src/Core/Auth.antt =====
-- core/src/auth.rs: the authenticated packet. HMAC-SHA256 is not part of the repository: it is the
-- operation of `Mac`, whose tag has 32 bytes, and `verify_slice` compares a slice with the tag.
pub mod Packets
use why.Common.{
  ℕ, ◌+◌, ◌*◌, ◌≡◌, Bool, true, false, ◌&&◌, ◌==◌, ltb, if◌then◌else◌, Option, none, some, List, [],
  ◌∷◌, ◌++◌, length, take, drop,
}
use why.Core.Outcome.{Outcome, ok, err, panic, ◌>>=◌, invalid_byte_length}
use why.Core.Grid.{Grid, from_bytes}
use why.Core.Grid.Bytes.{grid_bytes, grids_bytes}
use why.Core.Types.{EncryptedData}

pub record Mac : Type 0 where
  pub hmac : List ℕ → List ℕ → List ℕ
  pub length-hmac : (mac_key message : List ℕ) → length (hmac mac_key message) ≡ 32

pub record AuthenticatedData : Type 0 where
  pub mac : List ℕ
  pub encrypted_data : EncryptedData

pub record AuthenticatedPacket : Type 0 where
  pub mac : List ℕ
  pub nonce : Grid
  pub output : List Grid

unfoldable pub same_bytes : List ℕ → List ℕ → Bool
same_bytes [] [] = true
same_bytes [] (y ∷ ys) = false
same_bytes (x ∷ xs) [] = false
same_bytes (x ∷ xs) (y ∷ ys) = x == y && same_bytes xs ys

module _ (m : Mac) where
  -- The nonce is fed to the hash, then the grids, each cell by cell.
  pub compute_mac : Grid → List Grid → List ℕ → List ℕ
  compute_mac nonce output mac_key = m.hmac mac_key (grid_bytes nonce ++ grids_bytes output)

  pub authenticate : EncryptedData → List ℕ → AuthenticatedData
  authenticate encrypted_data mac_key = record {
    mac = compute_mac encrypted_data.nonce encrypted_data.output mac_key;
    encrypted_data = encrypted_data;
  }

  -- `AuthenticatedData::verify`
  pub verify_data : AuthenticatedData → List ℕ → Bool
  verify_data a mac_key =
      same_bytes (compute_mac a.encrypted_data.nonce a.encrypted_data.output mac_key) a.mac

  -- `AuthenticatedPacket::verify`
  pub verify : AuthenticatedPacket → List ℕ → Bool
  verify p mac_key = same_bytes (compute_mac p.nonce p.output mac_key) p.mac

  pub open_packet : AuthenticatedPacket → List ℕ → Grid → Option EncryptedData
  open_packet p mac_key key =
      if verify p mac_key
      then some (record { output = p.output; key = key; nonce = p.nonce })
      else none

-- `Vec::<u8>::from`: the tag, the nonce and the grids.
pub to_bytes : AuthenticatedData → List ℕ
to_bytes a = a.mac ++ (grid_bytes a.encrypted_data.nonce ++ grids_bytes a.encrypted_data.output)

-- The first grid is the nonce. `grids.remove(0)` panics where there is none.
pub packet_of : List ℕ → List Grid → Outcome AuthenticatedPacket
packet_of mac [] = panic
packet_of mac (nonce ∷ grids) = ok (record { mac = mac; nonce = nonce; output = grids })

pub try_from : ℕ → ℕ → List ℕ → Outcome AuthenticatedPacket
try_from w h bytes =
    let grid_size : ℕ = w * h * 8 in
    if ltb (length bytes) (32 + grid_size)
    then err (invalid_byte_length grid_size (length bytes))
    else (from_bytes w h (drop 32 bytes) >>= λ grids. packet_of (take 32 bytes) grids)
