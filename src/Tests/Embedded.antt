-- ===== src/Tests/Embedded.antt =====
-- A session that embeds the host of `Hosts`.
use auditable_mcp_sdk_python.Tests.Tools.{accepting, signing, write_file, work}
use auditable_mcp_sdk_python.Tests.Hosts.{recording, uncertain}
use auditable_mcp_sdk_python.InProcess.Recorded.{ActsRecorded, with_action-ActsRecorded}

with_action-ActsRecorded_example :
    ActsRecorded recording accepting signing write_file work 0 (uncertain, 0)
with_action-ActsRecorded_example =
    with_action-ActsRecorded recording accepting signing write_file work 0 (uncertain, 0)
