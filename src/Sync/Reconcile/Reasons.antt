-- ===== src/Sync/Reconcile/Reasons.antt =====
-- packages/calendar-sync/src/types.ts: `ReasonCode` as the text that the database keeps.
use planipus.Common.{String}
use planipus.CalendarSync.Types.{ReasonCode}

unfoldable pub reason_text : ReasonCode → String
reason_text ReasonCode.policy_disabled = "policy_disabled"
reason_text ReasonCode.policy_paused = "policy_paused"
reason_text ReasonCode.policy_review_required = "policy_review_required"
reason_text ReasonCode.invalid_same_calendar = "invalid_same_calendar"
reason_text ReasonCode.invalid_unwritable_destination = "invalid_unwritable_destination"
reason_text ReasonCode.invalid_hours_profile = "invalid_hours_profile"
reason_text ReasonCode.invalid_source_event = "invalid_source_event"
reason_text ReasonCode.invalid_privacy_transform = "invalid_privacy_transform"
reason_text ReasonCode.unsupported_destination_capability = "unsupported_destination_capability"
reason_text ReasonCode.outside_horizon = "outside_horizon"
reason_text ReasonCode.source_deleted = "source_deleted"
reason_text ReasonCode.source_cancelled = "source_cancelled"
reason_text ReasonCode.managed_copy = "managed_copy"
reason_text ReasonCode.manual_exclusion = "manual_exclusion"
reason_text ReasonCode.nosync = "nosync"
reason_text ReasonCode.already_invited = "already_invited"
reason_text ReasonCode.timed_event_disabled = "timed_event_disabled"
reason_text ReasonCode.timed_event_included = "timed_event_included"
reason_text ReasonCode.all_day = "all_day"
reason_text ReasonCode.all_day_free = "all_day_free"
reason_text ReasonCode.all_day_busy_included = "all_day_busy_included"
reason_text ReasonCode.all_day_included = "all_day_included"
reason_text ReasonCode.free = "free"
reason_text ReasonCode.free_preserved = "free_preserved"
reason_text ReasonCode.free_forced_busy = "free_forced_busy"
reason_text ReasonCode.rsvp_declined = "rsvp_declined"
reason_text ReasonCode.rsvp_accepted = "rsvp_accepted"
reason_text ReasonCode.rsvp_tentative_busy = "rsvp_tentative_busy"
reason_text ReasonCode.rsvp_tentative_free = "rsvp_tentative_free"
reason_text ReasonCode.rsvp_unanswered_busy = "rsvp_unanswered_busy"
reason_text ReasonCode.rsvp_unanswered_free = "rsvp_unanswered_free"
reason_text ReasonCode.organizer_assumed_accepted = "organizer_assumed_accepted"
reason_text ReasonCode.rsvp_unanswered_omitted = "rsvp_unanswered_omitted"
reason_text ReasonCode.rsvp_tentative_omitted = "rsvp_tentative_omitted"
reason_text ReasonCode.all_times = "all_times"
reason_text ReasonCode.overlaps_hours = "overlaps_hours"
reason_text ReasonCode.contained_in_hours = "contained_in_hours"
reason_text ReasonCode.outside_hours = "outside_hours"
reason_text ReasonCode.not_contained_in_hours = "not_contained_in_hours"
reason_text ReasonCode.dst_ambiguous_earlier = "dst_ambiguous_earlier"
reason_text ReasonCode.dst_ambiguous_later = "dst_ambiguous_later"
reason_text ReasonCode.dst_nonexistent_shifted = "dst_nonexistent_shifted"
reason_text ReasonCode.dst_resolution_rejected = "dst_resolution_rejected"
reason_text ReasonCode.privacy_busy_only = "privacy_busy_only"
reason_text ReasonCode.privacy_commitment = "privacy_commitment"
reason_text ReasonCode.privacy_private_details = "privacy_private_details"
reason_text ReasonCode.privacy_shared_details = "privacy_shared_details"
reason_text ReasonCode.create_missing_copy = "create_missing_copy"
reason_text ReasonCode.update_source_change = "update_source_change"
reason_text ReasonCode.restore_destination_missing = "restore_destination_missing"
reason_text ReasonCode.restore_destination_drift = "restore_destination_drift"
reason_text ReasonCode.delete_source_removed = "delete_source_removed"
reason_text ReasonCode.delete_policy_exclusion = "delete_policy_exclusion"
reason_text ReasonCode.no_change = "no_change"
reason_text ReasonCode.detached_no_action = "detached_no_action"
reason_text ReasonCode.ambiguous_ownership = "ambiguous_ownership"
