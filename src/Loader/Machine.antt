-- ===== src/Loader/Machine.antt =====
-- `Loader` of loader.rs and its message handler, one function for each opcode's arm.
use switchvisor.Base.{
  ℕ, Bool, false, Result, ok, List, [], ◌∷◌, Option, none, some, take, replicate,
}
use switchvisor.Payload.Crc
use switchvisor.Loader.Types.{State, StatusCode, ProtocolError, max_images}
use switchvisor.Loader.Header.{Header}
use switchvisor.Loader.Descriptor.{BundleDescriptor, ImageDescriptor}
use switchvisor.Loader.Response
use switchvisor.Loader.Response.{Response, Action, Storage}

pub record Loader : Type 0 where
  pub state : State
  pub bundle : Option BundleDescriptor
  pub images : List (Option ImageDescriptor)
  pub completed : ℕ
  pub current : Option ImageDescriptor
  pub received : ℕ
  pub crc32 : ℕ
  pub claimed : Bool

unfoldable pub new : Loader
new = record {
  state = State.idle;
  bundle = none;
  images = replicate max_images none;
  completed = 0;
  current = none;
  received = 0;
  crc32 = Crc.new;
  claimed = false;
}

unfoldable pub clear : Loader → State → Loader
clear l state = record l {
  state = state;
  bundle = none;
  images = replicate max_images none;
  completed = 0;
  current = none;
  received = 0;
  crc32 = Crc.new;
}

unfoldable pub disable : Loader → Loader
unfolding clear
disable l = clear l State.disabled

-- `iter().flatten()` over the slots that are filled.
abbrev pub present {ℓ} : {A : Type ℓ} → List (Option A) → List A
present [] = []
present (none ∷ slots) = present slots
present (some a ∷ slots) = a ∷ present slots

-- `self.images[..self.completed].iter().flatten()`
abbrev pub stored : Loader → List ImageDescriptor
stored l = present (take l.completed l.images)

-- The loader and the storage after a message, and what the handler returns.
abbrev pub Outcome : Type 0 → Type 0
Outcome S = Loader × S × Result ProtocolError (Response × Action)

module _ {S : Type 0} where
  abbrev pub reply_with : Loader → S → Header → StatusCode → List ℕ → Outcome S
  reply_with l s header code body = (l, s, ok (Response.new header code l.state body, Action.none))

  abbrev pub reply : Loader → S → Header → StatusCode → Outcome S
  reply l s header code = reply_with l s header code []
