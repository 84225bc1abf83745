-- ===== src/Dscp/Classes.antt =====
-- DSCP_CLASSES, DSCP_CODEPOINTS and DSCP_CLASSIFY_CLASSES.
use openmptcprouter_vps.Prelude.{Bool, List, String, String_discrete, [], contains, ℕ, ◌∷◌}

abbrev pub dscp_classes : List String
dscp_classes =
    "cs0" ∷ "cs1" ∷ "cs2" ∷ "cs3" ∷ "cs4" ∷ "cs5" ∷ "cs6" ∷ "cs7" ∷ "le" ∷ "af11" ∷ "af12" ∷ "af13"
    ∷ "af21" ∷ "af22" ∷ "af23" ∷ "af31" ∷ "af32" ∷ "af33" ∷ "af41" ∷ "af42" ∷ "af43" ∷ "ef" ∷ []

abbrev pub dscp_codepoints : List (String × ℕ)
dscp_codepoints =
    ("cs0", 0)
    ∷ ("cs1", 8)
    ∷ ("cs2", 16)
    ∷ ("cs3", 24)
    ∷ ("cs4", 32)
    ∷ ("cs5", 40)
    ∷ ("cs6", 48)
    ∷ ("cs7", 56)
    ∷ ("le", 1)
    ∷ ("af11", 10)
    ∷ ("af12", 12)
    ∷ ("af13", 14)
    ∷ ("af21", 18)
    ∷ ("af22", 20)
    ∷ ("af23", 22)
    ∷ ("af31", 26)
    ∷ ("af32", 28)
    ∷ ("af33", 30)
    ∷ ("af41", 34)
    ∷ ("af42", 36)
    ∷ ("af43", 38)
    ∷ ("ef", 46)
    ∷ []

abbrev pub classify_classes : List String
classify_classes = "cs0" ∷ "cs1" ∷ "cs2" ∷ "cs3" ∷ "cs4" ∷ "cs5" ∷ "cs6" ∷ "cs7" ∷ "ef" ∷ []

-- dscp in DSCP_CLASSES
unfoldable pub is_class : String → Bool
unfolding contains String_discrete
is_class dscp = contains String_discrete dscp dscp_classes

unfoldable pub is_classify_class : String → Bool
unfolding contains String_discrete
is_classify_class dscp = contains String_discrete dscp classify_classes
