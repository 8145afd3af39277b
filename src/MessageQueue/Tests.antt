-- ===== src/MessageQueue/Tests.antt =====
-- The chat over message queues, for two lines.
use open_source_project.Prelude.{List, [], ◌∷◌, Bytes, codes}

abbrev two_lines : List Bytes
two_lines = codes "hi" ∷ [] ∷ []
