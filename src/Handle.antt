-- ===== src/Handle.antt =====
-- What the classes that hold a queue or a pool by a pointer share. A handle is an Option, `none` the null
-- pointer. Each class has a module Pointer below its queue, or Pool.Static.
use boost_task.Prelude.{Bool, true, false, Option, none, some}

-- Each function of two handles gives both back. The move constructor takes the pointer.
abbrev pub taken_from : {Q : Type 0} → Option Q → Option Q × Option Q
taken_from other = (other, none)

abbrev pub swapped : {Q : Type 0} → Option Q → Option Q → Option Q × Option Q
swapped h other = (other, h)

-- A temporary takes the pointer and is swapped in; the old pointer goes with it.
abbrev pub assigned_from : {Q : Type 0} → Option Q → Option Q → Option Q × Option Q
assigned_from h other =
    let (tmp, other') = taken_from other in let (h', tmp') = swapped h tmp in (h', other')

abbrev pub is_null : {Q : Type 0} → Option Q → Bool
is_null none = true
is_null (some q) = false

-- A call through the pointer; `none` is the failed assertion that it is not null.
abbrev pub forward : {Q A : Type 0} → (Q → A) → Option Q → Option A
forward f none = none
forward f (some q) = some (f q)
