-- ===== src/Windows/Messages/Defs.antt =====
-- One case of the `switch` of `OutputWindowCallbackMacro`: the name of its label and the text that
-- it prints. Some cases stand between `#ifndef SIMPLEMSG` and `#endif`.
use Prim.Native.String.{String}

pub data Case : Type 0 where
  always unless_simple : String → String → Case
