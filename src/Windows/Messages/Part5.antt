-- ===== src/Windows/Messages/Part5.antt =====
-- Cases of the `switch` of `OutputWindowCallbackMacro`, LeftSupport/LeftSupport/LeftWindows.cpp.
use mathlib.Core.List.{List, [], ◌∷◌}
use left_my_codes.Windows.Messages.Defs.{Case, always}

abbrev pub cases_5 : List Case
cases_5 =
    always "TVN_ITEMEXPANDING" "树控件某结点将被展开或收缩,所用结构:NMTREEVIEW"
    ∷ always "TVN_KEYDOWN" "用户在树控件中按下了某键盘按键,并且树控件获得了输入焦点"
    ∷ always "TVN_SELCHANGED" "用户已改变树控件项目的选择"
    ∷ always "TVN_SELCHANGING" "用户对树控件项目的选择将改变"
    ∷ always "TVN_SETDISPINFO" "通知更新树控件项目的信息"
    ∷ always "TVN_SINGLEEXPAND" "用户使用鼠标单击打开或关闭树控件项目时发送的通知消息"
    ∷ always "HDM_DELETEITEM" "删除标头控件的列项目,宏:Header_DeleteItem"
    ∷ always "HDM_GETIMAGELIST" "获取标头控件的列图标列表,宏:Header_GetImageList"
    ∷ always "HDM_GETITEMA" "获取标头控件的列项目,宏:Header_GetItemRect"
    ∷ always "HDM_GETITEMW" "获取标头控件的列项目,宏:Header_GetItemRect"
    ∷ always "HDM_GETITEMCOUNT" "获取标头控件的列项目数量,宏:Header_GetItemCount "
    ∷ always "HDM_GETITEMRECT" "获取标头控件的项目矩形范围,宏:Header_GetItemRect"
    ∷ always "HDM_GETORDERARRAY" "获取标头控件列的左右对齐方式(提供对标头项目排序的支持),宏:Header_GetOrderArray"
    ∷ always "HDM_HITTEST" "标头控件点击测试,找到鼠标点击的坐标"
    ∷ always "HDM_INSERTITEM" "为标头控件插入列项目,宏:Header_InsertItem"
    ∷ always "HDM_LAYOUT" "获取在一个指定矩形内的标头控件的大小和位置,宏:Header_Layout"
    ∷ always "HDM_ORDERTOINDEX" "获取标头控件列的左右对齐方式(项目索引,基于标头控件中项目的顺序,索引自左到右由0开始),宏:Header_OrderToIndex"
    ∷ always "HDM_SETHOTDIVIDER" "设置高亮度分隔符,提供对标头项目的拖放,宏:Header_SetHotDivider"
    ∷ always "HDM_SETIMAGELIST" "为标头控件设置图像列表,宏:Header_SetImageList"
    ∷ always "HDM_SETITEMA" "设置标头控件中项目的属性,宏:Header_SetItem"
    ∷ always "HDM_SETITEMW" "设置标头控件中项目的属性,宏:Header_SetItem"
    ∷ always "HDM_SETORDERARRAY" "设置标头控件列的左右对齐方式,宏:Header_SetOrderArray"
    ∷ always "STM_GETICON" "获取显示在静态控件中的图标的句柄,须具SS_ICON风格,宏:Static_GetIcon"
    ∷ always "STM_GETIMAGE"
        "获取显示在静态控件中的图像的句柄,支持图标(SS_ICON)、光标(SS_ICON)、位图(SS_BITMAP)、图元(SS_ENHMETAFILE)"
    ∷ always "STM_SETICON" "设置将要在静态控件中显示的图标(句柄),须具SS_ICON风格,宏:Static_SetIcon"
    ∷ always "STM_SETIMAGE"
        "设置将要在静态控件中显示的图像(句柄),支持图标(SS_ICON)、光标(SS_ICON)、位图(SS_BITMAP)、图元(SS_ENHMETAFILE),自定义宏(位图):#define Static_SetBitmap(hwndCtl, hBitmap)  ((HBITMAP)(UINT_PTR)SendMessage((hwndCtl), STM_SETIMAGE, IMAGE_BITMAP, (LPARAM)(HBITMAP)hBitmap))"
    ∷ always "TB_ADDBUTTONS" "向一个工具栏中添加一个或多个按钮,相关结构:TBBUTTON"
    ∷ always "TB_ADDSTRING" "添加一个新字符串到工具栏的内部字符串列表中"
    ∷ always "TB_AUTOSIZE" "调整工具栏的尺寸。当设置按钮或位图尺寸、添加字符串时,发送本消息"
    ∷ always "TB_BUTTONSTRUCTSIZE" "指定工具栏TBBUTTON结构的大小"
    ∷ always "TB_CHANGEBITMAP" "改变工具栏的按钮图像(图像列表中的索引)"
    ∷ always "TB_CHECKBUTTON" "核选或清除工具栏的指定按钮。当一个按钮被核选时,它看起来就像被按下一样"
    ∷ always "TB_GETANCHORHIGHLIGHT" "获取工具栏的固定的加亮设置"
    ∷ always "TB_GETBITMAP" "获取与工具栏按钮相关联的位图的索引"
    ∷ always "TB_GETBITMAPFLAGS" "从工具栏获取位图标志(DWORD值)"
    ∷ always "TB_GETBUTTONINFO" "获取工具栏中按钮的扩展信息,相关结构:TBBUTTONINFO"
    ∷ always "TB_GETBUTTONTEXT" "获取工具栏按钮的文本"
    ∷ always "TB_GETCOLORSCHEME" "获取工具栏的色彩方案信息"
    ∷ always "TB_GETEXTENDEDSTYLE" "获取工具栏的扩展风格"
    ∷ always "TB_GETHOTITEM" "获取工具栏的热点项的索引(从零开始)"
    ∷ always "TB_GETIMAGELIST" "获取工具栏中用于显示按钮常规状态图像的列表"
    ∷ always "TB_GETINSERTMARK" "获取工具栏的插入标记,相关结构:TBINSERTMARK"
    ∷ always "TB_GETINSERTMARKCOLOR" "获取工具栏中包含当前插入标记的颜色(COLORREF值)"
    ∷ always "TB_GETMAXSIZE" "获取工具栏中所有可见按钮与分隔条的总尺寸"
    ∷ always "TB_GETOBJECT" "获取工具栏的IDropTarget接口,IDropTarget用于实现以拖放方式获取资源等"
    ∷ always "TB_GETPADDING" "获取工具栏的填充距(像素)(padding:补白、填充距)"
    ∷ always "TB_GETROWS" "获取工具栏中当前显示的按钮行数,注:除非工具栏是用TBSTYLE_WRAPABLE风格创建的,否则行数总为1"
    ∷ always "TB_GETTEXTROWS" "获取用于显示在工具栏按钮上的文本行的最大数字"
    ∷ always "TB_GETTOOLTIPS" "获取与工具栏相关联的工具提示控件(若有)的句柄,通常工具栏会自己创建并维护其工具提示控件,一般不必使用本消息"
    ∷ always "TB_HITTEST" "点击测试,获取工具栏指定点的位置的整数值,若该值为零或正值,则表示该点所在按钮的索引(非分隔条),为负则该点不在某按钮上"
    ∷ always "TB_INSERTBUTTON" "在工具栏中插入一个按钮"
    ∷ always "TB_INSERTMARKHITTEST" "为工具栏上的某点(该点坐标是相对于工具栏客户区的)获取插入标记的信息,相关结构:TBINSERTMARK"
    ∷ always "TB_MAPACCELERATOR" "为一个工具栏按钮映射快捷键字符,该字符与按钮文本中加下划线的字符是一样的"
    ∷ always "TB_MOVEBUTTON" "将一个工具栏按钮从一个索引移动到另一个索引"
    ∷ always "TB_REPLACEBITMAP" "以新位图替换工具栏中现有的位图,相关结构:TBREPLACEBITMAP"
    ∷ always "TB_SAVERESTORE" "保存或恢复工具栏的状态,相关结构:TBSAVEPARAMS"
    ∷ always "TB_SETANCHORHIGHLIGHT" "对工具栏进行加亮设置"
    ∷ always "TB_SETBITMAPSIZE" "设置添加到工具栏的位图尺寸"
    ∷ always "TB_SETBUTTONINFO" "设置工具栏指定按钮的信息"
    ∷ always "TB_SETBUTTONSIZE" "设置工具栏的按钮尺寸(尺寸必须与所载入的位图尺寸一样)"
    ∷ always "TB_SETCMDID" "设置工具栏指定按钮的命令标识符(按钮被按下时,标识符将被发送给属主窗口)"
    ∷ always "TB_SETCOLORSCHEME" "设置工具栏的色彩方案信息"
    ∷ always "TB_SETDRAWTEXTFLAGS" "设置工具栏的文本绘制标志"
    ∷ always "TB_SETEXTENDEDSTYLE" "设置工具栏的扩展风格"
    ∷ always "TB_SETHOTITEM" "设置工具栏热点项索引(若无TBSTYLE_FLAT风格,则本消息将会被忽略)"
    ∷ always "TB_SETIMAGELIST" "设置工具栏的默认图像列表"
    ∷ always "TB_SETINDENT" "设置工具栏中首个按钮的缩进"
    ∷ always "TB_SETINSERTMARK" "设置工具栏的当前插入标记"
    ∷ always "TB_SETINSERTMARKCOLOR" "设置工具栏插入标记的颜色"
    ∷ always "TB_SETMAXTEXTROWS" "设置显示在工具栏按钮中的文本的最大行数"
    ∷ always "TB_SETPADDING" "设置工具栏的填充距(像素)(padding:补白、填充距)"
    ∷ always "TB_SETPARENT" "为工具栏指定一个父窗(用于发送通知消息)"
    ∷ always "TB_SETROWS" "设置工具栏按钮的行数"
    ∷ always "TB_SETTOOLTIPS" "将一个工具提示控件与工具栏进行关联"
    ∷ always "TBN_BEGINADJUST" "通知工具栏的父窗:用户已开始自定义一个工具栏,相关结构:NMHDR"
    ∷ always "TBN_BEGINDRAG" "通知工具栏的父窗:用户已开始拖动工具栏的某个按钮,相关结构:NMTOOLBAR"
    ∷ always "TBN_CUSTHELP" "通知工具栏的父窗:用户已经选择了自定义工具栏对话框上的帮助按钮,相关结构:NMHDR"
    ∷ always "TBN_ENDADJUST" "通知工具栏的父窗:用户已停止自定义一个工具栏,相关结构:NMHDR"
    ∷ always "TBN_ENDDRAG" "通知工具栏的父窗:用户已停止拖动工具栏的某个按钮,相关结构:NMTOOLBAR"
    ∷ always "TBN_GETBUTTONINFO" "获取工具栏的自定义信息(通知消息),相关结构:NMTOOLBAR"
    ∷ always "TBN_QUERYDELETE" "通知工具栏的父窗:用户自定义工具栏时一个按钮是否可被删除"
    ∷ always "TBN_QUERYINSERT" "通知工具栏的父窗:用户自定义工具栏时一个按钮是否可被插入到指定按钮的左侧"
    ∷ always "TBN_RESET" "通知工具栏的父窗:用户在自定义工具栏对话框中已经对工具栏进行重置了"
    ∷ always "TBN_TOOLBARCHANGE" "通知工具栏的父窗:用户已经定制完一个工具栏"
    ∷ always "IPM_CLEARADDRESS" "清空IP地址控件中的内容"
    ∷ always "IPM_GETADDRESS"
        "从IP地址控件的4个域中获取地址值,相关宏:FIRST_IPADDRESS/SECOND_IPADDRESS/THIRD_IPADDRESS/FOURTH_IPADDRESS"
    ∷ always "IPM_ISBLANK" "确定IP地址控件的全部域是否为空"
    ∷ always "IPM_SETADDRESS" "为IP地址控件的4个域设置地址,宏:MAKEIPADDRESS"
    ∷ always "IPM_SETFOCUS" "为IP地址控件指定域设置键盘焦点,同时该域中的文本会被选中"
    ∷ always "IPM_SETRANGE" "为IP地址控件指定域设置有效范围,宏:MAKEIPRANGE"
    ∷ always "IPN_FIELDCHANGED" "用户改变了IP地址控件某域或从一个域移动其它域时发送本通知消息,相关结构NMIPADDRESS"
    ∷ always "PBM_SETBKCOLOR" "设置进度条控件的背景色"
    ∷ always "TCM_ADJUSTRECT" "根据给定的窗口矩形计算标签控件的显示区域,或根据一个给定的显示区域计算相应的窗口矩形"
    ∷ always "TCM_DELETEALLITEMS" "删除标签控件中所有选项卡"
    ∷ always "TCM_DELETEITEM" "从标签控件中删除指定选项卡"
    ∷ always "TCM_DESELECTALL" "重新设置标签控件中的项,清除任何被按下的选项卡"
    ∷ always "TCM_GETCURFOCUS" "获取标签控件中拥有当前焦点的选项卡索引"
    ∷ always "TCM_GETCURSEL" "获取标签控件中当前选择的选项卡"
    ∷ always "TCM_GETEXTENDEDSTYLE" "获取标签控件的扩展风格"
    ∷ always "TCM_GETIMAGELIST" "获取与标签控件相关联的图像列表"
    ∷ always "TCM_GETITEM" "获取标签控件中某选项卡的信息"
    ∷ always "TCM_GETITEMCOUNT" "获取标签控件中的项数"
    ∷ always "TCM_GETITEMRECT" "获取标签控件中指定选项卡的边界矩形"
    ∷ always "TCM_GETROWCOUNT" "获取标签控件中当前行数,注:TCS_MULTILINT风格的标签控件可有多行选项卡"
    ∷ always "TCM_GETTOOLTIPS" "获取与标签控件相关联的工具提示控件的句柄"
    ∷ always "TCM_HIGHLIGHTITEM" "使标签控件的某选项卡处于高亮状态"
    ∷ always "TCM_HITTEST" "确定是哪个选项卡(若有)位于指定的屏幕位置"
    ∷ always "TCM_INSERTITEM" "插入一个新选项卡到标签控件"
    ∷ always "TCM_REMOVEIMAGE" "从标签控件的图像列表中删除指定图像"
    ∷ always "TCM_SETCURFOCUS" "设置焦点到标签控件中指定的选项卡"
    ∷ always "TCM_SETCURSEL" "设置标签控件中当前选择的选项卡"
    ∷ always "TCM_SETEXTENDEDSTYLE" "设置标签控件的扩展风格"
    ∷ always "TCM_SETIMAGELIST" "为标签控件指定一个已创建的图像列表"
    ∷ always "TCM_SETITEM" "设置标签控件中选项卡的某些或所有属性"
    ∷ always "TCM_SETITEMEXTRA" "标签控件为空时,改变标签控件中各选项卡的额外字节数(默认4字节),注:额外字节可把程序数据与各选项卡关联起来"
    ∷ always "TCM_SETITEMSIZE" "设置标签控件中选项卡的宽度和高度"
    ∷ always "TCM_SETMINTABWIDTH" "设置标签控件中选项卡的最小宽度"
    ∷ always "TCM_SETPADDING" "设置标签控件中的每个选项卡的图标和标签周围的空间大小(填充距)"
    ∷ always "TCM_SETTOOLTIPS" "设置与标签控件相关联的工具提示控件(用句柄进行设置)"
    ∷ always "TCN_GETOBJECT"
        "将对象拖动到标签控件的选项卡上时,标签控件生成TCN_GETOBJECT通知消息以请求放置目标对象,注:须调用AfxOleInit初始化OLE库"
    ∷ always "TCN_KEYDOWN" "通知标签控件的父窗:用户已按下某键"
    ∷ always "TCN_SELCHANGE" "通知标签控件的父窗:选项卡的当前选择已被改变"
    ∷ always "TCN_SELCHANGING" "通知标签控件的父窗:选项卡的当前选择将要改变"
    ∷ always "EM_GETSEL" "获取编辑控件当前被选中部分(若有)的开始和结束位置;返回双字,低位字为起始位置,高位字为首个未被选中的字符位置"
    ∷ always "EM_SETSEL" "在编辑控件中选定文本"
    ∷ always "EM_GETRECT" "获取编辑控件的带格式的文本边界矩形(与其窗口大小无关)"
    ∷ always "EM_SETRECT" "设置编辑控件的带格式的文本边界矩形(与其窗口大小无关)"
    ∷ always "EM_SETRECTNP" "设置多行编辑控件的带格式的文本边界矩形,而不必重绘"
    ∷ always "EM_SCROLL" "使多行编辑控件滚动一行(SB_LINEDOWN/SB_LINEUP)或一页(SB_PAGEDOWN/SB_PAGEUP)"
    ∷ []
