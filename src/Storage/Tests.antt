-- ===== src/Storage/Tests.antt =====
-- The record ID theorems at single values.
use database_systems.Storage.RecordId.{RecordId}

abbrev first : RecordId
first = record { pid = 2; sid = 9 }

abbrev second : RecordId
second = record { pid = 3; sid = 0 }

abbrev third : RecordId
third = record { pid = 3; sid = 1 }
