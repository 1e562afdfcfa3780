-- ===== src/Prelude/Gob.antt =====
-- encoding/gob, of which the code uses an encoder and a decoder for each type that it saves.
use mathlib.Core.Path.{◌≡◌}
use mathlib.Core.Option.{Option, some}

-- What an encoder and a decoder of a type do; `none` is an error.
pub record Codec (Bytes A : Type 0) : Type 0 where
  pub encode : A → Option Bytes
  pub decode : Bytes → Option A

-- The documented behaviour: the decoder gives the value that was encoded, if there was no error.
abbrev pub Carries : {Bytes A : Type 0} → Codec Bytes A → Type 0
Carries {Bytes} {A} gob =
    (a : A) (bytes : Bytes) → gob.encode a ≡ some bytes → gob.decode bytes ≡ some a
