-- ===== src/Core/Types.antt =====
-- core/src/types.rs: the data that the encrypter and the decrypter hand over.
use why.Common.{ℕ, List}
use why.Core.Grid.{Grid}

pub record EncryptedData : Type 0 where
  pub output : List Grid
  pub key : Grid
  pub nonce : Grid

pub record DecryptedData : Type 0 where
  pub output : List ℕ
  pub key : List ℕ
