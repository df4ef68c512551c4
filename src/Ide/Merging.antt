-- ===== src/Ide/Merging.antt =====
-- src/ide/IdeClientRegistry.ts: a feature that a session has turned off stays off.
use break_pilot.Common.{false, Option, none, some, List, [], ◌∷◌, ◌≡◌, refl, arith, Number}
use break_pilot.Ide.{
  Feature, Features, Protocol, merge_debugger_features, feature_of, negotiate_debugger_features,
}

-- The features after the messages of a session.
abbrev pub merge_all : Option Features → List (Option Features) → Option Features
merge_all existing [] = existing
merge_all existing (incoming ∷ rest) = merge_all (merge_debugger_features existing incoming) rest

feature_of-merge :
    (existing incoming : Option Features) (f : Feature)
    → feature_of existing f ≡ some false
    → feature_of (merge_debugger_features existing incoming) f ≡ some false
unfolding merge_debugger_features
feature_of-merge none incoming f h = absurd (ground (arith, h))
feature_of-merge (some existing) none f h = h
feature_of-merge (some existing) (some incoming) f h = rw h refl

feature_of-merge_all :
    (existing : Option Features) (messages : List (Option Features)) (f : Feature)
    → feature_of existing f ≡ some false
    → feature_of (merge_all existing messages) f ≡ some false
feature_of-merge_all existing [] f h = h
feature_of-merge_all existing (incoming ∷ rest) f h =
    feature_of-merge_all (merge_debugger_features existing incoming) rest f
      (feature_of-merge existing incoming f h)

-- A feature that a session has turned off is never negotiated, whatever the client offers and
-- whatever the session sends later.
pub negotiate-merge_all :
    (client : Protocol) (version : Option Number) (existing : Option Features)
    (messages : List (Option Features)) (f : Feature)
    → feature_of existing f ≡ some false
    → negotiate_debugger_features client
        (record { version = version; features = merge_all existing messages })
        f
      ≡ false
unfolding negotiate_debugger_features
negotiate-merge_all client version existing messages f h =
    rw (feature_of-merge_all existing messages f h) (ground arith)
