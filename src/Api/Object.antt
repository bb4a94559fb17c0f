-- ===== src/Api/Object.antt =====
-- An object that a Go function changes through a pointer: the second part of the state, beside the
-- world. It is kept after an error, as the caller may go on to use it.

use idp_mgmt_operator.Api.Action.{Result, ok, err, panic, Action}

module _ {W O : Type 0} where
  abbrev pub beside : {A : Type 0} → O → Result A × W → Result A × (W × O)
  beside o (r, w) = (r, (w, o))

  -- A call that does not touch the object.
  abbrev pub on_world : {A : Type 0} → Action W A → Action (W × O) A
  on_world m (w, o) = beside o (m w)

  abbrev pub object : Action (W × O) O
  object (w, o) = (ok o, (w, o))

  abbrev pub change : (O → O) → Action (W × O) (Unit {0})
  change f (w, o) = (ok tt, (w, f o))

  abbrev pub stored : O → Result O × W → Result (Unit {0}) × (W × O)
  stored o (ok o', w) = (ok tt, (w, o'))
  stored o (err e, w) = (err e, (w, o))
  stored o (panic, w) = (panic, (w, o))

  -- A write of the object, which takes the server's answer in its place.
  abbrev pub store : (O → Action W O) → Action (W × O) (Unit {0})
  store f (w, o) = stored o (f o w)

  abbrev pub forget : {A : Type 0} → Result A × (W × O) → Result A × W
  forget (r, (w, o)) = (r, w)

  -- A function whose object is local to its caller.
  abbrev pub with_object : {A : Type 0} → O → Action (W × O) A → Action W A
  with_object o m w = forget (m (w, o))
