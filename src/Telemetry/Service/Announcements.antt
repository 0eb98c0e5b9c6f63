-- ===== src/Telemetry/Service/Announcements.antt =====
-- What UploadTelemetry answers, keeps and announces.
use device_ops.Str.{Str}
