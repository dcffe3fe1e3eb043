-- ===== src/Display/Fetching/Examples.antt =====
-- display/session_selected.go: a fetch that reads and writes without an error.
use atmail.Prelude.{refl, Bool, true, [], text}
use atmail.Display.Fetching.{Fetching, reader}
use atmail.Display.Fetching.Marking.{Smooth}

-- A section is whether it is peeked, and nothing is extracted.
abbrev pub env : Fetching
env = record {
  Section = Bool;
  BinarySection = Bool;
  peek = λ b. b;
  binary_peek = λ b. b;
  envelope = λ t. [];
  body_structure = λ t. [];
  extract_body = λ t s. t;
  extract_binary = λ t s. t;
  binary_size = λ t s. 0;
  internal_date = λ e. 0;
  read = λ e. reader (text "hi") true;
  writes_body = λ s t. true;
  writes_binary = λ s t. true;
  closes = λ e. true;
}

pub Smooth-env : Smooth env
Smooth-env = record {
  reads = λ e. (text "hi", refl);
  bodies = λ s t. refl;
  binaries = λ s t. refl;
  closed = λ e. refl;
}
