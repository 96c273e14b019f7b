-- ===== src/Json/Values.antt =====
-- The values that parseJSON returns, in place of Go's reflect.Value.
use safe_harbor_server.Base.{ℕ, Bool, true, false}
use safe_harbor_server.Auth.Sessions.{Bytes}

-- An int: `negsuc n` is -(n + 1).
pub data ℤ : Type 0 where
  pos negsuc : ℕ → ℤ

-- reflect.Type: `anything` is interface{}, the element type of an array without elements.
pub data Kind : Type 0 where
  whole string boolean instant anything : Kind
  slice : Kind → Kind

-- An array holds the type of its elements. A time is a number of nanoseconds.
mutual
  pub data Value : Type 0 where
    int : ℤ → Value
    text : Bytes → Value
    flag : Bool → Value
    time : ℕ → Value
    array : Kind → Items → Value

  pub data Items : Type 0 where
    nil : Items
    cons : Value → Items → Items

-- value.Type()
unfoldable pub kind_of : Value → Kind
kind_of (int z) = whole
kind_of (text s) = string
kind_of (flag b) = boolean
kind_of (time t) = instant
kind_of (array k xs) = slice k

unfoldable pub same_kind : Kind → Kind → Bool
same_kind whole whole = true
same_kind string string = true
same_kind boolean boolean = true
same_kind instant instant = true
same_kind anything anything = true
same_kind (slice j) (slice k) = same_kind j k
same_kind _ _ = false
