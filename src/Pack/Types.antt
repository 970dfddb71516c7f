-- ===== src/Pack/Types.antt =====
-- What the code asks of a Go type by reflection: its kind, its element, its fields, and which
-- interfaces it implements. Pointers and slices end the description, since a model refers to other
-- models only behind them.
use trails.Base.{Bool, true, false, Option, none, some, ℕ, zero, suc, Text, codes}

pub data Kind : Type 0 where
  bool_kind int_kind int8_kind int16_kind int32_kind int64_kind : Kind
  uint_kind uint8_kind uint16_kind uint32_kind uint64_kind : Kind
  float32_kind float64_kind string_kind struct_kind pointer_kind slice_kind other_kind : Kind

-- A type behind a pointer or in a slice: its kind and name, or those behind one more pointer.
pub data Target : Type 0 where
  to_type to_pointer : Kind → Text → Target

pub data Hook : Type 0 where
  before_insert after_insert before_update after_update before_delete after_delete : Hook
  after_scan : Hook

pub data Receiver : Type 0 where
  no_method by_value by_pointer : Receiver

-- `table_name` is what the method TableName returns, where the type has it.
pub record StructFacts : Type 0 where
  pub name : Text
  pub is_time : Bool
  pub is_valuer : Bool
  pub is_scanner : Bool
  pub table_name : Option Text
  pub receiver : Hook → Receiver

mutual
  pub data GoType : Type 0 where
    basic : Kind → GoType
    struct_ : StructFacts → GoFields → GoType
    pointer slice : Target → GoType

  pub data GoFields : Type 0 where
    no_fields : GoFields
    field_then :
        (name : Text) (anonymous exported : Bool) (tag : Option Text) → GoType → GoFields → GoFields

abbrev pub kind_of : GoType → Kind
kind_of (basic k) = k
kind_of (struct_ facts fs) = struct_kind
kind_of (pointer t) = pointer_kind
kind_of (slice t) = slice_kind

abbrev pub is_pointer : GoType → Bool
is_pointer (pointer t) = true
is_pointer _ = false

-- t.Field(i): its name and type.
abbrev pub nth_field : GoFields → ℕ → Option (Text × GoType)
nth_field no_fields i = none
nth_field (field_then name a e tag t fs) zero = some (name, t)
nth_field (field_then name a e tag t fs) (suc i) = nth_field fs i

-- Kind.String, as far as the error texts need it.
abbrev pub kind_string : Kind → Text
kind_string struct_kind = codes "struct"
kind_string pointer_kind = codes "ptr"
kind_string slice_kind = codes "slice"
kind_string _ = codes "other"
