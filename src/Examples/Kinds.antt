-- ===== src/Examples/Kinds.antt =====
-- `LogKindSet` at concrete sets.
use logger_cpp.Common.{◌≡◌, [], true}
use logger_cpp.Kinds.{of_bits, kinds_to_string, known_names, join_names}
use logger_cpp.Kinds.Names.{kinds_to_string_known}

-- A set with an unknown bit is not "ALL", and the unknown bit is not reported.
kinds_to_string_known_example :
    kinds_to_string (of_bits 15) ≡ join_names true (known_names (of_bits 15)) []
kinds_to_string_known_example = kinds_to_string_known (of_bits 15)
