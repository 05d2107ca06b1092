-- ===== src/Activity.antt =====
-- The feed of activity: web/src/components/activity-view/helpers/{constants,utils}.ts, and
-- `ActivityMessage` of web/src/types/activity.ts.
pub mod Laws
pub mod Format
mod Examples
use Prim.Native.String
use safebucket.Prelude.{
  ℕ, ◌+◌, ◌-◌, ◌*◌, ◌/◌, ◌≡◌, refl, Bool, true, false, Option, none, some, String, ltb, leb, eqb,
  if◌then◌else◌,
}

pub data ActivityMessage : Type 0 where
  bucket_created : ActivityMessage
  file_uploaded : ActivityMessage
  file_downloaded : ActivityMessage
  file_updated : ActivityMessage
  file_deleted : ActivityMessage
  file_trashed : ActivityMessage
  file_restored : ActivityMessage
  file_purged : ActivityMessage
  folder_trashed : ActivityMessage
  folder_restored : ActivityMessage
  folder_purged : ActivityMessage
  bucket_member_created : ActivityMessage
  bucket_member_updated : ActivityMessage
  bucket_member_deleted : ActivityMessage

-- the icons, by the names they are imported under
pub data Icon : Type 0 where
  alert_circle archive_restore file_diff file_down file_minus file_up folder_minus : Icon
  share2 trash2 user_minus user_pen user_plus : Icon

-- `IMessageMapping`
pub record Mapping : Type 0 where
  pub message_key : String
  pub icon : Icon
  pub icon_color : String
  pub icon_bg : String

pub message_map : ActivityMessage → Mapping
message_map bucket_created = record {
  message_key = "activity.messages.bucket_created";
  icon = share2;
  icon_color = "text-green-500";
  icon_bg = "bg-green-100";
}
message_map file_uploaded = record {
  message_key = "activity.messages.file_uploaded";
  icon = file_up;
  icon_color = "text-purple-500";
  icon_bg = "bg-purple-100";
}
message_map file_downloaded = record {
  message_key = "activity.messages.file_downloaded";
  icon = file_down;
  icon_color = "text-indigo-500";
  icon_bg = "bg-indigo-100";
}
message_map file_updated = record {
  message_key = "activity.messages.file_updated";
  icon = file_diff;
  icon_color = "text-amber-500";
  icon_bg = "bg-amber-100";
}
message_map file_deleted = record {
  message_key = "activity.messages.file_deleted";
  icon = file_minus;
  icon_color = "text-red-500";
  icon_bg = "bg-red-100";
}
message_map file_trashed = record {
  message_key = "activity.messages.file_trashed";
  icon = trash2;
  icon_color = "text-orange-500";
  icon_bg = "bg-orange-100";
}
message_map file_restored = record {
  message_key = "activity.messages.file_restored";
  icon = archive_restore;
  icon_color = "text-blue-500";
  icon_bg = "bg-blue-100";
}
message_map file_purged = record {
  message_key = "activity.messages.file_purged";
  icon = file_minus;
  icon_color = "text-red-600";
  icon_bg = "bg-red-100";
}
message_map folder_trashed = record {
  message_key = "activity.messages.folder_trashed";
  icon = trash2;
  icon_color = "text-orange-500";
  icon_bg = "bg-orange-100";
}
message_map folder_restored = record {
  message_key = "activity.messages.folder_restored";
  icon = archive_restore;
  icon_color = "text-blue-500";
  icon_bg = "bg-blue-100";
}
message_map folder_purged = record {
  message_key = "activity.messages.folder_purged";
  icon = folder_minus;
  icon_color = "text-red-600";
  icon_bg = "bg-red-100";
}
message_map bucket_member_created = record {
  message_key = "activity.messages.bucket_member_created";
  icon = user_plus;
  icon_color = "text-blue-500";
  icon_bg = "bg-blue-100";
}
message_map bucket_member_updated = record {
  message_key = "activity.messages.bucket_member_updated";
  icon = user_pen;
  icon_color = "text-amber-500";
  icon_bg = "bg-amber-100";
}
message_map bucket_member_deleted = record {
  message_key = "activity.messages.bucket_member_deleted";
  icon = user_minus;
  icon_color = "text-red-500";
  icon_bg = "bg-red-100";
}

-- DEFAULT_ACTIVITY_MAPPING
abbrev pub default_activity_mapping : Mapping
default_activity_mapping = record {
  message_key = "activity.messages.default";
  icon = alert_circle;
  icon_color = "text-gray-500";
  icon_bg = "bg-gray-100";
}

-- `getActivityMapping`: `none` is a message that the map does not have.
pub get_activity_mapping : Option ActivityMessage → Mapping
unfolding message_map
get_activity_mapping none = default_activity_mapping
get_activity_mapping (some message) = message_map message

-- What `Math.floor` of a difference may be: `pos n` is n, `negsuc n` is -(n + 1).
pub data ℤ : Type 0 where
  pos negsuc : ℕ → ℤ

-- `Math.floor(d / k)`
pub floor_div : ℤ → ℕ → ℤ
floor_div (pos n) k = pos (n / k)
floor_div (negsuc n) k = negsuc (n / k)

-- `d < k`
abbrev below : ℤ → ℕ → Bool
below (pos n) k = ltb n k
below (negsuc n) k = true

-- the `unit` given to `format`
pub data TimeUnit : Type 0 where
  second minute hour day week month year : TimeUnit

abbrev unit_name : TimeUnit → String
unit_name second = "second"
unit_name minute = "minute"
unit_name hour = "hour"
unit_name day = "day"
unit_name week = "week"
unit_name month = "month"
unit_name year = "year"

abbrev is_one : ℤ → Bool
is_one (pos n) = eqb n 1
is_one (negsuc n) = false

-- What `format` hands to `t`: the count and the key of the unit.
pub format : ℤ → TimeUnit → ℤ × String
format count unit = (
  count,
  String.◌++◌ "activity.time." (String.◌++◌ (unit_name unit) (if is_one count then "" else "s")),
)

-- The choice of `timeAgo`, from the difference in nanoseconds: the source divides it by 1000000 and
-- then by the milliseconds of the unit.
pub time_ago : ℤ → ℤ × TimeUnit
unfolding floor_div
time_ago diff =
    let seconds = floor_div diff 1000000000 in
    let minutes = floor_div diff 60000000000 in
    let hours = floor_div diff 3600000000000 in
    let days = floor_div diff 86400000000000 in
    let weeks = floor_div days 7 in
    let months = floor_div days 30 in
    let years = floor_div days 365 in
    if below seconds 60
    then (seconds, second)
    else (if below minutes 60
        then (minutes, minute)
        else (if below hours 24
            then (hours, hour)
            else (if below days 7
                then (days, day)
                else (if below weeks 4
                    then (weeks, week)
                    else (if below months 12 then (months, month) else (years, year))))))

-- `now` in milliseconds and the timestamp in nanoseconds, to their difference
pub difference : ℕ → ℕ → ℤ
difference now timestamp =
    if leb timestamp (now * 1000000)
    then pos (now * 1000000 - timestamp)
    else negsuc (timestamp - now * 1000000 - 1)

-- `timeAgo`
pub time_ago_at : ℕ → ℕ → ℤ × String
unfolding difference format
time_ago_at now timestamp =
    let (count, unit) = time_ago (difference now timestamp) in format count unit
