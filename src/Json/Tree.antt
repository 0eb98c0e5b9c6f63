-- ===== src/Json/Tree.antt =====
-- A JSON document that the source puts together member by member, before jsoncpp writes it. `V` is the
-- type of a value that jsoncpp has read, `D` that of a double.
use device_ops.Prelude.{ℤ, Bool}
use device_ops.Str.{Str}

mutual
  pub data Tree (V D : Type 0) : Type 0 where
    text : Str → Tree V D
    int64 : ℤ → Tree V D
    flag : Bool → Tree V D
    double : D → Tree V D
    embedded : V → Tree V D
    object : Members V D → Tree V D
    array : Items V D → Tree V D

  -- root[name] = value, in the order in which they are set.
  pub data Members (V D : Type 0) : Type 0 where
    no_members : Members V D
    set : Str → Tree V D → Members V D → Members V D

  pub data Items (V D : Type 0) : Type 0 where
    no_items : Items V D
    item : Tree V D → Items V D → Items V D
