-- ===== src/Framing/Assess.antt =====
-- src/commercialrchproxy/rch/framing.py: `assess_framing`, and the limits of `frame_stream`.
use commercial_rchproxy.Common.{
  Bool, true, false, ◌&&◌, ℕ, Option, none, some, [], ◌∷◌, length, all, ◌==◌,
}
use commercial_rchproxy.Framing.Types.{FramingResult, frames}
use commercial_rchproxy.Framing.Framer.{Limits}

-- The defaults of `frame_stream`
abbrev pub defaults : Limits
defaults = record {
  max_data_length = 999;
  max_buffer_bytes = 4096;
  max_events = 8192;
  max_issues = 256;
  max_issue_raw_bytes = 1024;
  retain_history = true;
}

-- `FramingAssessment`; the texts `evidence` and `reason` follow from its fields and the result.
pub record FramingAssessment : Type 0 where
  pub confirmed : Bool
  pub seen_frames : Option ℕ

-- `assess_framing`, of the result of `frame_stream`
unfoldable pub assess : FramingResult → FramingAssessment
unfolding frames
assess r = elim (frames r.events) [
  | [] ↦ record { confirmed = false; seen_frames = none }
  | f ∷ fs ↦ record {
    confirmed = all (λ frame. frame.bcc_valid) (f ∷ fs) && (length r.issues == 0);
    seen_frames = some (length (f ∷ fs));
  }
]

-- The limits that `frame_stream` passes on.
abbrev pub retaining : Limits → Limits
retaining l = record l { retain_history = true }
