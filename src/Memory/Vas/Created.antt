-- ===== src/Memory/Vas/Created.antt =====
-- The creation of a mapping in kernel/memory/vas.cpp, with the commitment of its object.
use reaveros.Prelude.Outcome.{Outcome}
use reaveros.Memory.Vas.{Vas}
