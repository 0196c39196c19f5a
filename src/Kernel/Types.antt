-- ===== src/Kernel/Types.antt =====
-- packages/core/src/kernel.ts and tim.ts: the data of the Kernel.
use arky_foundation.Common.{List, Option, Text}
use arky_foundation.Number.{Number}
use arky_foundation.Assert.Syntax.{TriState}
use arky_foundation.Json.{Value}

pub record Window : Type 0 where
  pub start : Option Text
  pub end : Option Text
  pub max_age : Option Text

pub record Require : Type 0 where
  pub min_witnesses : Option Number
  pub device_class : Option (List Text)
  pub code : Option (List Text)

pub record MeasureSpec : Type 0 where
  pub name : Text
  pub assert : Text
  pub window : Option Window
  pub require : Option Require

-- Arguments of a verb: JSON values by name.
pub record Verb : Type 0 where
  pub name : Text
  pub args : Value

pub record ConsequenceSpec : Type 0 where
  pub if_clause : Text
  pub then_verbs : List Verb

-- `measure` and `consequence` are absent where the commitment has no such array.
pub record Commitment : Type 0 where
  pub measure : Option (List MeasureSpec)
  pub consequence : Option (List ConsequenceSpec)

-- The parts of a TIM that the Kernel reads.
pub record Tim : Type 0 where
  pub ts : Text
  pub witnesses : Option (List Value)
  pub lamport : Option Number
  pub identity : Text
  pub value : Value
  pub unit : Option Text
  pub device : Option Text
  pub code : Option Text
  pub cid : Option Text

pub record AssertionResult : Type 0 where
  pub name : Text
  pub result : TriState
  pub input_value : Option Value
  pub unit : Option Text
  pub inputs : Option (List Text)
  pub error : Option Text

pub data DecisionStatus : Type 0 where
  approved rejected indeterminate : DecisionStatus

pub record Decision : Type 0 where
  pub status : DecisionStatus
  pub assertions : List AssertionResult
  pub authorized : List Verb
  pub errors : List Text
